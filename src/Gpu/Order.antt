-- ===== src/Gpu/Order.antt =====
-- The order in which the threads of a launch run.
use mathlib.Core.Path.{subst}
use mathlib.Core.List.{Permᴰ}
use stellar_bench.Base.{
  ℕ, ◌*◌, ◌≡◌, ◌≢◌, ◌<◌, refl, sym, ap, ◌∙◌, Bool, Option, some, List, ◌∷◌, ◌==◌, length, get_elem?,
  get_elem?-lt, some_inj, Bool-cases, inl, inr, arith,
}
use stellar_bench.Worker.Descent.{Doubles}
use stellar_bench.Gpu.{cuda_mf}
use stellar_bench.Gpu.Footprint.{HasInts, Keeps}
use stellar_bench.Gpu.Thread.{cuda_mf-Works}
use stellar_bench.Gpu.Agree.{Agrees}
use stellar_bench.Gpu.Alike.{cuda_mf-Both}
use stellar_bench.Gpu.Host.{launch}
use stellar_bench.Gpu.Ids.{AreIds, AreBelow, AreBelow-shuffle}
use stellar_bench.Gpu.Meet.{==-eq, eq-ne, meet, Keeps-Agrees}

module _ (d : Doubles) (is_zero : ℕ → Bool) (dim row_height col_height wn : ℕ)
    (pos : HasInts dim row_height col_height wn) (ratings : List ℕ)
    (rated : length ratings ≡ row_height * col_height) (row_ids col_ids : List ℕ)
    (r : AreIds wn row_ids) (c : AreIds wn col_ids) where
  abbrev thread : ℕ → List ℕ → List ℕ → Option (List ℕ × List ℕ)
  thread = cuda_mf d is_zero dim row_height col_height wn ratings row_ids col_ids

  abbrev IsSized : List ℕ → List ℕ → Type 0
  IsSized rows cols = (length rows ≡ row_height * dim) × (length cols ≡ col_height * dim)

  -- A thread on other arrays that agree on what it reads.
  second_run :
      (tid rx cx : ℕ) (rows cols rows₁ cols₁ rows' cols' : List ℕ)
      → get_elem? row_ids tid ≡ some rx
      → get_elem? col_ids tid ≡ some cx
      → IsSized rows cols
      → thread tid rows cols ≡ some (rows₁, cols₁)
      → Agrees dim wn rx rows rows'
      → Agrees dim wn cx cols cols'
      → (rows₂ cols₂ : List ℕ) × (thread tid rows' cols' ≡ some (rows₂, cols₂))
        × Keeps dim wn rx rows' rows₂
        × Keeps dim wn cx cols' cols₂
        × Agrees dim wn rx rows₁ rows₂
        × Agrees dim wn cx cols₁ cols₂
  second_run tid rx cx rows cols rows₁ cols₁ rows' cols' er ec sized run ar ac =
      let both =
        cuda_mf-Both d is_zero dim row_height col_height wn ratings rated pos rx cx row_ids col_ids
          tid rows cols rows' cols' er ec sized.0 sized.1 ar ac in
      let (rows₂, cols₂, run₂, keeps_r, keeps_c) =
        cuda_mf-Works d is_zero dim row_height col_height wn ratings row_ids col_ids rows' cols' tid
          rx cx pos rated (ar.size ∙ sized.0) (ac.size ∙ sized.1) er ec in
      let first = some_inj (sym both.first ∙ run) in
      let second = some_inj (sym both.second ∙ run₂) in
      (
        rows₂,
        cols₂,
        run₂,
        keeps_r,
        keeps_c,
        subst (λ z. Agrees dim wn rx z.0 rows₂) first
            (subst (λ z. Agrees dim wn rx both.rows₁ z.0) second both.row_agrees),
        subst (λ z. Agrees dim wn cx z.1 cols₂) first
            (subst (λ z. Agrees dim wn cx both.cols₁ z.1) second both.col_agrees),
      )

  abbrev threads : List ℕ → List ℕ → List ℕ → Option (List ℕ × List ℕ)
  threads = launch d is_zero dim row_height col_height wn ratings row_ids col_ids

  in_turn :
      (s t : ℕ) (order rows cols rows₁ cols₁ rows₂ cols₂ : List ℕ)
      → thread s rows cols ≡ some (rows₁, cols₁)
      → thread t rows₁ cols₁ ≡ some (rows₂, cols₂)
      → threads (s ∷ t ∷ order) rows cols ≡ threads order rows₂ cols₂
  unfolding launch
  in_turn s t order rows cols rows₁ cols₁ rows₂ cols₂ e₁ e₂ = rw (e₁, e₂) refl

  swap_threads :
      (s t : ℕ) (order rows cols : List ℕ)
      → s < wn
      → t < wn
      → s ≢ t
      → IsSized rows cols
      → threads (s ∷ t ∷ order) rows cols ≡ threads (t ∷ s ∷ order) rows cols
  unfolding launch
  swap_threads s t order rows cols s_lt t_lt ne sized =
      let (rs, ers) = get_elem?-lt row_ids s (omega (arith, r.count, s_lt)) in
      let (cs, ecs) = get_elem?-lt col_ids s (omega (arith, c.count, s_lt)) in
      let (rt, ert) = get_elem?-lt row_ids t (omega (arith, r.count, t_lt)) in
      let (ct, ect) = get_elem?-lt col_ids t (omega (arith, c.count, t_lt)) in
      let r_ne : rs ≢ rt = r.distinct s t rs rt ers ert ne in
      let c_ne : cs ≢ ct = c.distinct s t cs ct ecs ect ne in
      let rs_lt = r.below s rs ers in
      let rt_lt = r.below t rt ert in
      let cs_lt = c.below s cs ecs in
      let ct_lt = c.below t ct ect in
      let (rows₁, cols₁, run₁, kr₁, kc₁) =
        cuda_mf-Works d is_zero dim row_height col_height wn ratings row_ids col_ids rows cols s rs
          cs pos rated sized.0 sized.1 ers ecs in
      let (rows₂, cols₂, run₂, kr₂, kc₂) =
        cuda_mf-Works d is_zero dim row_height col_height wn ratings row_ids col_ids rows cols t rt
          ct pos rated sized.0 sized.1 ert ect in
      let (rows₁₂, cols₁₂, run₁₂, kr₁₂, kc₁₂, ar₁₂, ac₁₂) =
        second_run t rt ct rows cols rows₂ cols₂ rows₁ cols₁ ert ect sized run₂
          (Keeps-Agrees dim wn rs rt rows rows₁ rs_lt rt_lt r_ne kr₁)
          (Keeps-Agrees dim wn cs ct cols cols₁ cs_lt ct_lt c_ne kc₁) in
      let (rows₂₁, cols₂₁, run₂₁, kr₂₁, kc₂₁, ar₂₁, ac₂₁) =
        second_run s rs cs rows cols rows₁ cols₁ rows₂ cols₂ ers ecs sized run₁
          (Keeps-Agrees dim wn rt rs rows rows₂ rt_lt rs_lt (λ e. r_ne (sym e)) kr₂)
          (Keeps-Agrees dim wn ct cs cols cols₂ ct_lt cs_lt (λ e. c_ne (sym e)) kc₂) in
      let rows_meet : rows₁₂ ≡ rows₂₁ =
        meet dim wn rs rt rows rows₁ rows₂ rows₁₂ rows₂₁ pos.some_threads rs_lt rt_lt r_ne kr₁ kr₂
          kr₁₂ kr₂₁ ar₁₂ ar₂₁ in
      let cols_meet : cols₁₂ ≡ cols₂₁ =
        meet dim wn cs ct cols cols₁ cols₂ cols₁₂ cols₂₁ pos.some_threads cs_lt ct_lt c_ne kc₁ kc₂
          kc₁₂ kc₂₁ ac₁₂ ac₂₁ in
      in_turn s t order rows cols rows₁ cols₁ rows₁₂ cols₁₂ run₁ run₁₂
      ∙ ap (λ z. threads order z cols₁₂) rows_meet
      ∙ ap (λ z. threads order rows₂₁ z) cols_meet
      ∙ sym (in_turn t s order rows cols rows₂ cols₂ rows₂₁ cols₂₁ run₂ run₂₁)

  one_turn :
      (t : ℕ) (order rows cols rows₁ cols₁ : List ℕ)
      → thread t rows cols ≡ some (rows₁, cols₁)
      → threads (t ∷ order) rows cols ≡ threads order rows₁ cols₁
  unfolding launch
  one_turn t order rows cols rows₁ cols₁ e = rw e refl

  -- The threads of a launch in two orders.
  pub threads-shuffle :
      {order order' : List ℕ}
      → Permᴰ order order'
      → (rows cols : List ℕ) → AreBelow wn order
      → IsSized rows cols
      → threads order rows cols ≡ threads order' rows cols
  threads-shuffle Permᴰ.nil rows cols below sized = refl
  threads-shuffle (Permᴰ.cons {a = s} {l₁ = o} {l₂ = o'} e p) rows cols below sized =
      let (rs, ers) = get_elem?-lt row_ids s (omega (arith, r.count, below.0)) in
      let (cs, ecs) = get_elem?-lt col_ids s (omega (arith, c.count, below.0)) in
      let (rows₁, cols₁, run, kr, kc) =
        cuda_mf-Works d is_zero dim row_height col_height wn ratings row_ids col_ids rows cols s rs
          cs pos rated sized.0 sized.1 ers ecs in
      one_turn s o rows cols rows₁ cols₁ run
      ∙ threads-shuffle p rows₁ cols₁ below.1 (kr.0 ∙ sized.0, kc.0 ∙ sized.1)
      ∙ sym (one_turn s o' rows cols rows₁ cols₁ run)
      ∙ ap (λ t. threads (t ∷ o') rows cols) e
  threads-shuffle (Permᴰ.swap {a = s} {b = t} {a' = u} {l = l} e e') rows cols below sized =
      elim (Bool-cases (s == t)) [
        | inl same ↦
            ap (λ z. threads (z ∷ t ∷ l) rows cols) (==-eq s t same ∙ e')
            ∙ ap (λ z. threads (u ∷ z ∷ l) rows cols) (sym (==-eq s t same) ∙ e)
        | inr other ↦
            swap_threads s t l rows cols below.0 below.1.0 (eq-ne s t other) sized
            ∙ ap (λ z. threads (z ∷ s ∷ l) rows cols) e'
            ∙ ap (λ z. threads (u ∷ z ∷ l) rows cols) e
      ]
  threads-shuffle (Permᴰ.trans p q) rows cols below sized =
      threads-shuffle p rows cols below sized
      ∙ threads-shuffle q rows cols (AreBelow-shuffle wn p below) sized
