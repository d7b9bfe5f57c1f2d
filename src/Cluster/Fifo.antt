-- ===== src/Cluster/Fifo.antt =====
-- The messages of a connection, those sent and those taken, through what happens on it.
use mathlib.Core.Path.{subst}
use stellar_bench.Base.{
  ℕ, ◌+◌, ◌^◌, ◌≤◌, ◌<◌, ◌≡◌, refl, sym, ap, ◌∙◌, Bool, List, [], ◌∷◌, ◌++◌, ℤ, pos, pos_part, ◌+ℤ◌,
  ◌≤ℤ◌, length, length-append, take, drop, append-nil, arith,
}
use stellar_bench.Context.{ConnContext}
use stellar_bench.Round.{minus_1}
use stellar_bench.Cluster.{Ends, Net}
use stellar_bench.Cluster.Rounds.{filled}
use stellar_bench.Cluster.Safety.{IsQuiet}
use stellar_bench.Cluster.Pairs.{next-minus_1, next-pos, pos-minus_1}
use stellar_bench.Cluster.Channel.{
  Channel, got_bytes, Event, stays, moves, fills, takes, Carries, Sound,
}
use stellar_bench.Cluster.Underway.{Underway, underway, absent, Net-Holds}

taken_behind : (t c : ℕ) → (minus_1 t +ℤ pos 2) ≤ℤ pos c → t < c
taken_behind t c h = ground arith

minus_1_inj : (a b : ℕ) → minus_1 a ≡ minus_1 b → a ≡ b
minus_1_inj a b h = ground arith

pub sent_count :
    {c : Channel} {sent taken : List (List ℕ)} (x : Sound c)
    → Carries c sent taken
    → length sent ≡ x.link.to_send
sent_count x v = ap pos_part (sym v.sent_all ∙ x.sends)

pub taken_count :
    {c : Channel} {sent taken : List (List ℕ)} (x : Sound c)
    → Carries c sent taken
    → length taken ≡ x.link.taken
taken_count x v = minus_1_inj _ _ (sym v.taken_all ∙ x.takes)

module _ (rdma_write : List ℕ → ℕ → List ℕ → List ℕ)
    (writes_start : (src : List ℕ) (len : ℕ) (dst : List ℕ)
      → rdma_write src len dst ≡ take len src ++ drop len dst) where
  fills-Carries :
      (c : Channel) (sent taken : List (List ℕ)) (prepared : Bool) (buf : List ℕ) (len : ℕ)
      → Sound c
      → Carries c sent taken
      → len ≤ length buf
      → IsQuiet c.ends c.sent c.taken
      → Carries
          (record c {
            ends = record (c.ends) { client = filled c.ends.client prepared buf len };
            sent = c.sent +ℤ pos 1;
          })
          (sent ++ (take len buf ∷ []))
          taken
  fills-Carries c sent taken prepared buf len x v fits quiet =
      let k = sent_count x v in
      let t = taken_count x v in
      let even : length sent ≡ length taken = ap pos_part (
        sym v.sent_all
        ∙ sym quiet.taken_all
        ∙ ap (λ (z : ℤ). z +ℤ pos 1) v.taken_all
        ∙ next-minus_1 (length taken)
        ∙ sym (pos-minus_1 (length taken))) in
      let arrived : c.ends.conn.buf_recv_counter ≡ length sent =
        ap pos_part (quiet.arrived_all ∙ v.sent_all) in
      record {
        sent_all = rw (v.sent_all, length-append) (next-pos (length sent));
        taken_all = v.taken_all;
        none_more = λ h. absurd (omega (arith, h, even, length-append sent (take len buf ∷ [])));
        one_more = λ h. (
          take len buf,
          rw (v.none_more even) refl,
          record {
            fits = fits;
            unposted = λ p. refl;
            unwritten = λ len' rest w.
                absurd (absent _ len' rest (ap (length {A = ℕ}) quiet.none_unwritten) w);
            landed = λ len' rest w.
                absurd (absent _ len' rest (ap (length {A = ℕ}) quiet.none_landed) w);
            arrived = λ p. absurd (omega (arith, p, arrived, even));
          },
        );
      }

  takes-Carries :
      (c : Channel) (sent taken : List (List ℕ)) (ctx : ConnContext)
      → Sound c
      → Carries c sent taken
      → (c.taken +ℤ pos 2) ≤ℤ pos c.ends.conn.buf_recv_counter
      → Carries
          (record c { ends = record (c.ends) { conn = ctx }; taken = c.taken +ℤ pos 1 })
          sent
          (taken ++ (got_bytes c.ends.conn ∷ []))
  takes-Carries c sent taken ctx x v more =
      let k = sent_count x v in
      let t = taken_count x v in
      let new =
        taken_behind (length taken) c.ends.conn.buf_recv_counter
          (subst (λ z. (z +ℤ pos 2) ≤ℤ pos c.ends.conn.buf_recv_counter) v.taken_all more) in
      let arrived : c.ends.conn.buf_recv_counter ≡ length taken + 1 =
        omega (arith, new, t, x.stands_for.recv_counter, x.inv.arrived, x.inv.sent, x.close) in
      let odd : length sent ≡ length taken + 1 =
        omega
          (arith, k, t, arrived, x.stands_for.recv_counter, x.inv.arrived, x.inv.sent, x.close) in
      let (m, last, holds) = v.one_more odd in
      record {
        sent_all = v.sent_all;
        taken_all = rw (v.taken_all, length-append) (next-minus_1 (length taken));
        none_more = λ h. last ∙ ap (λ z. taken ++ (z ∷ [])) (holds.arrived arrived);
        one_more =
            λ h. absurd (omega (arith, h, odd, length-append taken (got_bytes c.ends.conn ∷ [])));
      }

  moves-Carries :
      (c : Channel) (e : Ends) (sent taken : List (List ℕ))
      → Sound c
      → length c.ends.client.buffer < 2 ^ 32
      → Carries c sent taken
      → Net rdma_write c.ends e
      → Carries (record c { ends = e }) sent taken
  moves-Carries c e sent taken x small v move =
      let k = sent_count x v in
      let t = taken_count x v in
      record {
        sent_all = v.sent_all;
        taken_all = v.taken_all;
        none_more = v.none_more;
        one_more = λ h.
            let (m, last, holds) = v.one_more h in
            let u =
              subst (λ z. Underway c.ends z) (sym t) (underway c x (omega (arith, h, k, t))) in
            (m, last, Net-Holds rdma_write writes_start (length taken) m u small move holds);
      }

  pub Event-Carries :
      {c c' : Channel} {new got : List (List ℕ)} (sent taken : List (List ℕ))
      → Sound c
      → length c.ends.client.buffer < 2 ^ 32
      → Carries c sent taken
      → Event rdma_write c new got c'
      → Carries c' (sent ++ new) (taken ++ got)
  Event-Carries sent taken x small v stays = rw (append-nil sent, append-nil taken) v
  Event-Carries {c} sent taken x small v (moves {e} m) =
      rw (append-nil sent, append-nil taken) (moves-Carries c e sent taken x small v m)
  Event-Carries {c} sent taken x small v (fills prepared buf len fits same quiet) =
      rw (append-nil taken) (fills-Carries c sent taken prepared buf len x v fits quiet)
  Event-Carries {c} sent taken x small v (takes ctx more) =
      rw (append-nil sent) (takes-Carries c sent taken ctx x v more)
