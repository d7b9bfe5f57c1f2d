-- ===== src/Startup/Blocks.antt =====
-- The server's `main` cuts both matrices into blocks and gives the elements their first values:
-- `i * 0.1` in block `i` of P and `i * 0.1 + 1` in block `i` of Q. `dim` is K, `rows` is N and `cols` M.
use mathlib.Core.Option
use stellar_bench.Base.{
  ℕ, zero, suc, ◌+◌, ◌≡◌, ◌≤◌, ◌<◌, inl, inr, refl, ap, ◌∙◌, Option, some, List, [], ◌∷◌, ◌>>=◌,
  length, get_elem?, get_elem?-lt, get_elem?-set_self, get_elem?-set_ne, set, replicate, drop_none,
  append-nil, arith,
}
use stellar_bench.Block.{Block, Region}
use stellar_bench.Fill.{fill_from, fill_from-filled}
use stellar_bench.Partition.{partition_block, full_height}
use stellar_bench.Partition.Tiling.{tile, tiles, get_elem?-tiles, partition_block-tiles}
use stellar_bench.Startup.Counters.{before_or_at}
use mathlib.Core.Path.{subst}

-- The constants 0.1 and 1 and the arithmetic of `double`, over the 64-bit patterns.
pub record Values : Type 0 where
  pub tenth : ℕ
  pub one : ℕ
  pub of_int : ℕ → ℕ
  pub mul : ℕ → ℕ → ℕ
  pub add : ℕ → ℕ → ℕ

abbrev pub p_value : Values → ℕ → ℕ
p_value v i = v.mul (v.of_int i) v.tenth

abbrev pub q_value : Values → ℕ → ℕ
q_value v i = v.add (v.mul (v.of_int i) v.tenth) v.one

-- One of the two inner loops.
unfoldable pub fill_block : ℕ → Block → Option Block
fill_block value b = do
  words ← fill_from b.ele_num 0 value b.eles.words
  some (record b { eles = record (b.eles) { words = words } })

-- The loop over the blocks from entry `i` on, with the entries that are left.
unfoldable pub fill_blocks :
    Values → ℕ → ℕ → List Block → List Block → Option (List Block × List Block)
unfolding fill_block
fill_blocks v zero i ps qs = some (ps, qs)
fill_blocks v (suc left) i ps qs = do
  p ← get_elem? ps i
  p' ← fill_block (p_value v i) p
  q ← get_elem? qs i
  q' ← fill_block (q_value v i) q
  fill_blocks v left (i + 1) (set ps i p') (set qs i q')

unfoldable pub create_blocks :
    Values
    → (ℕ → Region)
    → ℕ
    → ℕ
    → ℕ
    → ℕ
    → List Block
    → List Block
    → Option (List Block × List Block)
unfolding fill_blocks
create_blocks v alloc rows cols dim worker_num ps qs = do
  ps' ← partition_block alloc rows dim worker_num ps
  qs' ← partition_block alloc cols dim worker_num qs
  fill_blocks v worker_num 0 ps' qs'

-- A block whose object has the size of its elements.
abbrev Sized : List Block → ℕ → Type 0
Sized bs j = (b : Block) × (get_elem? bs j ≡ some b) × (length b.eles.words ≡ b.ele_num)

-- Block `j` has that value in each of its elements.
abbrev pub HasValue : List Block → ℕ → ℕ → Type 0
HasValue bs j value =
    (b : Block) × (get_elem? bs j ≡ some b) × (b.eles.words ≡ replicate b.ele_num value)

abbrev pub valued : ℕ → Block → Block
valued value b = record b { eles = record (b.eles) { words = replicate b.ele_num value } }

pub fill_block-valued :
    (value : ℕ) (b : Block)
    → length b.eles.words ≡ b.ele_num
    → fill_block value b ≡ some (valued value b)
unfolding fill_block
fill_block-valued value b h =
    rw (fill_from-filled b.ele_num 0 value [] b.eles.words refl (omega arith)) (
      rw (drop_none b.eles.words b.ele_num (omega arith), append-nil (replicate b.ele_num value))
        refl)

set-Sized : (bs : List Block) (i j : ℕ) (b : Block) → ¬ (i ≡ j) → Sized bs j → Sized (set bs i b) j
set-Sized bs i j b ne (c, e, size) = (c, get_elem?-set_ne bs b ne ∙ e, size)

set-HasValue_other :
    (f : ℕ → ℕ) (bs : List Block) (i j : ℕ) (b : Block)
    → ¬ (i ≡ j)
    → HasValue bs j (f j)
    → HasValue (set bs i b) j (f j)
set-HasValue_other f bs i j b ne (c, e, all) = (c, get_elem?-set_ne bs b ne ∙ e, all)

in_list : (bs : List Block) (i : ℕ) (b : Block) → get_elem? bs i ≡ some b → i < length bs
in_list [] i b e = cc
in_list (c ∷ bs) zero b e = omega arith
in_list (c ∷ bs) (suc i) b e = omega (arith, in_list bs i b e)

-- After the rounds below `i`, the blocks below `i` have their value, and those from `i` on their size.
record Filling (f : ℕ → ℕ) (bs : List Block) (i n : ℕ) : Type 0 where
  before : (j : ℕ) → j < i → HasValue bs j (f j)
  after : (j : ℕ) → i ≤ j → j < n → Sized bs j

fill-Filling :
    (f : ℕ → ℕ) (bs : List Block) (i n : ℕ) (b : Block)
    → get_elem? bs i ≡ some b
    → Filling f bs i n
    → Filling f (set bs i (valued (f i) b)) (i + 1) n
fill-Filling f bs i n b e v = record {
  before = λ j lt. elim (before_or_at i j lt) [
    | inl lower ↦ set-HasValue_other f bs i j (valued (f i) b) (λ h. omega arith) (v.before j lower)
    | inr here ↦
        subst (λ k. HasValue (set bs i (valued (f i) b)) k (f k)) here
          (valued (f i) b, get_elem?-set_self bs i (valued (f i) b) (in_list bs i b e), refl)
  ];
  after = λ j low high.
      set-Sized bs i j (valued (f i) b) (λ h. omega arith) (v.after j (omega arith) high);
}

fill_blocks-total :
    (v : Values) (left i n : ℕ) (ps qs : List Block)
    → i + left ≡ n
    → Filling (p_value v) ps i n
    → Filling (q_value v) qs i n
    → (ps' qs' : List Block) × (fill_blocks v left i ps qs ≡ some (ps', qs'))
      × ((j : ℕ) → j < n → HasValue ps' j (p_value v j) × HasValue qs' j (q_value v j))
unfolding fill_blocks
fill_blocks-total v zero i n ps qs e fp fq =
    (ps, qs, refl, λ j lt. (fp.before j (omega arith), fq.before j (omega arith)))
fill_blocks-total v (suc left) i n ps qs e fp fq =
    let (p, p_at, p_size) = fp.after i (omega arith) (omega arith) in
    let (q, q_at, q_size) = fq.after i (omega arith) (omega arith) in
    let (ps', qs', run, all) =
      fill_blocks-total v left (i + 1) n _ _ (omega arith)
        (fill-Filling (p_value v) ps i n p p_at fp) (fill-Filling (q_value v) qs i n q q_at fq) in
    (
      ps',
      qs',
      rw
          (
            p_at,
            fill_block-valued (p_value v i) p p_size,
            q_at,
            fill_block-valued (q_value v i) q q_size,
          )
          run,
      all,
    )

tiles-Sized :
    (alloc : ℕ → Region) (rc dim height n j : ℕ) (bs : List Block)
    → ((k : ℕ) → length (alloc k).words ≡ k)
    → n ≤ length bs
    → j < n
    → Sized (tiles alloc rc dim height n 0 bs) j
tiles-Sized alloc rc dim height n j bs sized room lt =
    let (b, e) = get_elem?-lt bs j (omega arith) in
    (
      tile alloc rc dim height (0 + j) b,
      get_elem?-tiles alloc rc dim height n 0 j bs lt
          ∙ ap (Option.map (tile alloc rc dim height (0 + j))) e,
      sized _,
    )

-- With at least one worker, a slot of both arrays for each, and memory of the size that is asked for, the
-- server creates its blocks without a fault, and each element of the blocks of worker `j` is `j * 0.1` in
-- P and `j * 0.1 + 1` in Q.
pub create_blocks-HasValue :
    (v : Values) (alloc : ℕ → Region) (rows cols dim n : ℕ) (ps qs : List Block)
    → ((k : ℕ) → length (alloc k).words ≡ k)
    → 0 < n
    → n ≤ length ps
    → n ≤ length qs
    → (ps' qs' : List Block) × (create_blocks v alloc rows cols dim n ps qs ≡ some (ps', qs'))
      × ((j : ℕ) → j < n → HasValue ps' j (p_value v j) × HasValue qs' j (q_value v j))
unfolding create_blocks
create_blocks-HasValue v alloc rows cols dim n ps qs sized one p_room q_room =
    let (ps', qs', run, all) =
      fill_blocks-total v n 0 n _ _ (omega arith)
        (record {
          before = λ j lt. absurd (omega arith);
          after =
              λ j low lt. tiles-Sized alloc rows dim (full_height rows n) n j ps sized p_room lt;
        })
        (record {
          before = λ j lt. absurd (omega arith);
          after =
              λ j low lt. tiles-Sized alloc cols dim (full_height cols n) n j qs sized q_room lt;
        }) in
    (
      ps',
      qs',
      rw
          (
            partition_block-tiles alloc rows dim (full_height rows n) n ps one p_room refl,
            partition_block-tiles alloc cols dim (full_height cols n) n qs one q_room refl,
          )
          run,
      all,
    )
