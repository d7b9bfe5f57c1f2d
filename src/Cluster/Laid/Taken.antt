-- ===== src/Cluster/Laid/Taken.antt =====
-- Messages that are images of blocks at their places, and the rounds of the threads on them.
use mathlib.Core.Path.{subst}
use stellar_bench.Base.{
  ℕ, ◌≡◌, sym, ap, ◌∙◌, not, Bool, true, some, List, [], ◌∷◌, ◌++◌, map, length, get_elem?, pos,
  minus_one, ◌+◌, ◌+ℤ◌, ◌≤ℤ◌, ltb_ℤ, leb_ℤ, >>=-eq-some, some_inj, Bool-cases, inl, inr,
}
use stellar_bench.Block.{Block, Region, block_size}
use stellar_bench.Wire.{data_size, receive_block}
use stellar_bench.Wire.Image.{image}
use stellar_bench.Wire.RoundTrip.{IsRepresentable}
use stellar_bench.Ps
use stellar_bench.Ps.{Ps}
use stellar_bench.Worker
use stellar_bench.Worker.{Worker}
use stellar_bench.Worker.Descent.{Doubles, fake_sub_mf}
use stellar_bench.Worker.Keeps.{AreDoubles, IsKept, fake_sub_mf-IsKept}
use stellar_bench.Cluster.Rounds.{worker_send_round-cases}
use stellar_bench.Cluster.Channel.{got_bytes}
use stellar_bench.Cluster.Logs.{logged}
use stellar_bench.Cluster.Payloads.{BlockPair, message}
use stellar_bench.Cluster.Stored.{receive-got}
use stellar_bench.Cluster.BlocksRead.{receive_of_parts}
use stellar_bench.Cluster.Blocks.{chosen}
use stellar_bench.Cluster.Laid.{Place, Stay, Sits, IsWorkerLaid, AllSit}
use stellar_bench.Cluster.Laid.Store.{Ps-store-Stay, Worker-store-Sits}

IsKept-IsRepresentable :
    (b : Block) (ws : List ℕ)
    → IsRepresentable b
    → IsKept b.eles.words ws
    → IsRepresentable (record b { eles = record (b.eles) { words = ws } })
IsKept-IsRepresentable b ws r k = record {
  well_formed = record { counted = k.size ∙ r.well_formed.counted; small = r.well_formed.small };
  id_fits = r.id_fits;
  age_fits = r.age_fits;
  sta_fits = r.sta_fits;
  height_fits = r.height_fits;
  is_p_fits = r.is_p_fits;
  words_fit = k.words r.words_fit;
}

module _ (ps qs : List Place) (pi qi : ℕ) where
  -- Each message is the image of two blocks that sit at the two indices.
  abbrev pub AllImages : List (List ℕ) → Type 0
  AllImages [] = Unit {0}
  AllImages (m ∷ ms) = (p q : Block) × Sits ps pi p × Sits qs qi q × (m ≡ image p q) × AllImages ms

  AllImages-right : (xs ys : List (List ℕ)) → AllImages (xs ++ ys) → AllImages ys
  AllImages-right [] ys h = h
  AllImages-right (x ∷ xs) ys (p, q, sp, sq, e, h) = AllImages-right xs ys h

  -- What is taken of the messages that were sent.
  sent-AllImages :
      (bs : List BlockPair) (taken rest : List (List ℕ))
      → AllSit ps qs pi qi bs
      → map message bs ≡ taken ++ rest
      → AllImages taken
  sent-AllImages bs [] rest h e = tt
  sent-AllImages [] (m ∷ ms) rest h e = cc
  sent-AllImages ((p, q) ∷ bs) (m ∷ ms) rest (sp, sq, h) e =
      (p, q, sp, sq, sym (cc), sent-AllImages bs ms rest h (cc))

  pub took-AllImages :
      (bs : List BlockPair) (taken took rest : List (List ℕ))
      → AllSit ps qs pi qi bs
      → map message bs ≡ (taken ++ took) ++ rest
      → AllImages took
  took-AllImages bs taken took rest h e =
      AllImages-right taken took (sent-AllImages bs (taken ++ took) rest h e)

  pub Worker-recv-Laid :
      (alloc : ℕ → Region) (w : Worker) {w' : Worker}
      → ((k : ℕ) → length (alloc k).words ≡ k)
      → IsWorkerLaid ps qs pi qi w
      → Worker.recv_round alloc w ≡ some w'
      → AllImages (
          logged
            (not (leb_ℤ (pos w.s_ctx.buf_recv_counter) (w.recved_age +ℤ pos 1)))
            (got_bytes w.s_ctx))
      → IsWorkerLaid ps qs pi qi w'
  unfolding Worker.recv_round
  Worker-recv-Laid alloc w {w'} sized laid h images =
      elim (Bool-cases (leb_ℤ (pos w.s_ctx.buf_recv_counter) (w.recved_age +ℤ pos 1))) [
        | inl waits ↦ subst (IsWorkerLaid ps qs pi qi) (some_inj (rw waits at h)) laid
        | inr takes ↦
            let e = rw takes at h in
            let (x, y, sx, sy, got, _) = rw takes at images in
            let (a, e₁, h₁) = >>=-eq-some (receive_block w.s_ctx.buffer 0) _ e in
            let (p, e₂, h₂) = >>=-eq-some (Worker.store_block alloc w.p_block a) _ h₁ in
            let (b, e₃, h₃) =
              >>=-eq-some (receive_block w.s_ctx.buffer (block_size + data_size a.ele_num)) _ h₂ in
            let (q, e₄, h₄) = >>=-eq-some (Worker.store_block alloc w.q_block b) _ h₃ in
            let (ea, eb) =
              receive-got w.s_ctx x y a b (receive_of_parts w.s_ctx.buffer a b e₁ e₃) sx.fits
                sy.fits got in
            let sp = Worker-store-Sits ps alloc w.p_block x pi a sized laid.p_fits sx ea e₂ in
            let sq = Worker-store-Sits qs alloc w.q_block y qi b sized laid.q_fits sy eb e₄ in
            subst (IsWorkerLaid ps qs pi qi) (some_inj h₄) (record {
              p_fits = sp.fits;
              q_fits = sq.fits;
              sits = λ some_taken. (sp.here, sq.here);
            })
      ]

  pub Ps-recv-Stay :
      (i : ℕ) (s : Ps) {s' : Ps}
      → ((c : Place) → get_elem? ps pi ≡ some c → c.block_id ≡ pi)
      → ((c : Place) → get_elem? qs qi ≡ some c → c.block_id ≡ qi)
      → Stay ps s.p_blocks
      → Stay qs s.q_blocks
      → Ps.recv_round i s ≡ some s'
      → AllImages (
          logged
            (not (ltb_ℤ (pos (s.s_ctx i).buf_recv_counter +ℤ minus_one) (s.recved_iter i +ℤ pos 1)))
            (got_bytes (s.s_ctx i)))
      → Stay ps s'.p_blocks × Stay qs s'.q_blocks
  unfolding Ps.recv_round
  Ps-recv-Stay i s {s'} p_indexed q_indexed p_stay q_stay h images =
      let none_new =
        ltb_ℤ (pos (s.s_ctx i).buf_recv_counter +ℤ minus_one) (s.recved_iter i +ℤ pos 1) in
      elim (Bool-cases none_new) [
        | inl waits ↦
            subst (λ (t : Ps). Stay ps t.p_blocks × Stay qs t.q_blocks) (some_inj (rw waits at h))
              (p_stay, q_stay)
        | inr takes ↦
            let e = rw takes at h in
            let (x, y, sx, sy, got, _) = rw takes at images in
            let (a, e₁, h₁) = >>=-eq-some (receive_block (s.s_ctx i).buffer 0) _ e in
            let (pbs, e₂, h₂) = >>=-eq-some (Ps.store_block s.p_blocks a) _ h₁ in
            let (b, e₃, h₃) =
              >>=-eq-some (receive_block (s.s_ctx i).buffer (block_size + data_size a.ele_num)) _
                h₂ in
            let (qbs, e₄, h₄) = >>=-eq-some (Ps.store_block s.q_blocks b) _ h₃ in
            let (ea, eb) =
              receive-got (s.s_ctx i) x y a b (receive_of_parts (s.s_ctx i).buffer a b e₁ e₃)
                sx.fits sy.fits got in
            subst (λ (t : Ps). Stay ps t.p_blocks × Stay qs t.q_blocks) (some_inj h₄)
              (
                Ps-store-Stay ps s.p_blocks pi x a p_indexed p_stay sx ea e₂,
                Ps-store-Stay qs s.q_blocks qi y b q_indexed q_stay sy eb e₄,
              )
      ]

  pub Worker-main-Laid :
      (d : Doubles) (random : ℕ → ℕ) (w : Worker) {w' : Worker}
      → AreDoubles d
      → IsWorkerLaid ps qs pi qi w
      → Worker.main_round d random w ≡ some w'
      → IsWorkerLaid ps qs pi qi w'
  unfolding Worker.main_round
  Worker-main-Laid d random w {w'} doubles laid h =
      elim (Bool-cases (Worker.can_compute w.iter_t w.recved_age)) [
        | inr waits ↦ subst (IsWorkerLaid ps qs pi qi) (some_inj (rw waits at h)) laid
        | inl computes ↦
            let e = rw computes at h in
            let (out, e₁, h₁) = >>=-eq-some (fake_sub_mf d random w.p_block w.q_block) _ e in
            let (p, q, same, kp, kq) = fake_sub_mf-IsKept d doubles random w.p_block w.q_block e₁ in
            let whole =
              ap
                (λ (o : Block × Block). some (record w {
                  p_block = o.0;
                  q_block = o.1;
                  completed_iter = w.iter_t;
                  iter_t = w.iter_t +ℤ pos 1;
                }))
                (sym same)
              ∙ h₁ in
            subst (IsWorkerLaid ps qs pi qi) (some_inj whole) (record {
              p_fits = IsKept-IsRepresentable w.p_block p laid.p_fits kp;
              q_fits = IsKept-IsRepresentable w.q_block q laid.q_fits kq;
              sits = laid.sits;
            })
      ]

  pub Worker-send-Laid :
      (w : Worker) {w' : Worker}
      → IsWorkerLaid ps qs pi qi w
      → Worker.send_round w ≡ some w'
      → IsWorkerLaid ps qs pi qi w'
  Worker-send-Laid w {w'} laid h = elim (worker_send_round-cases w h) [
    | inl (waits, same) ↦ subst (IsWorkerLaid ps qs pi qi) (sym same) laid
    | inr (g, buf, len, room, size, e) ↦
        subst (IsWorkerLaid ps qs pi qi) (sym e)
          (record { p_fits = laid.p_fits; q_fits = laid.q_fits; sits = laid.sits })
  ]

  -- A worker that may send has taken a message.
  pub Worker-put-AllSit :
      (g : Bool) (w : Worker)
      → IsWorkerLaid ps qs pi qi w
      → (g ≡ true → pos 0 ≤ℤ w.recved_age)
      → AllSit ps qs pi qi (chosen g (some (w.p_block, w.q_block)))
  Worker-put-AllSit g w laid taken = elim (Bool-cases g) [
    | inr waits ↦ rw waits tt
    | inl sends ↦
        let (hp, hq) = laid.sits (taken sends) in
        rw sends
          (record { here = hp; fits = laid.p_fits }, record { here = hq; fits = laid.q_fits }, tt)
  ]
