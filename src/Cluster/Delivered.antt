-- ===== src/Cluster/Delivered.antt =====
-- The messages of a whole run, on each connection.
use mathlib.Core.Path.{subst}
use stellar_bench.Base.{
  ℕ, ◌+◌, ◌^◌, ◌≤◌, ◌<◌, ◌≡◌, refl, sym, ◌∙◌, List, [], ◌∷◌, ◌++◌, ◌⊎◌, inl, inr, ℤ, pos, ◌+ℤ◌,
  length, take, drop, append-nil, arith, ◌==◌, Bool-cases,
}
use stellar_bench.Cluster.Pairs.{==-eq}
use stellar_bench.Round.{minus_1}
use stellar_bench.Cluster.{Net, Cluster}
use stellar_bench.Cluster.Channel.{Channel, Event, stays, moves, fills, takes, Carries, Sound}
use stellar_bench.Cluster.Fifo.{Event-Carries, sent_count, taken_count}
use stellar_bench.Cluster.Refinement.{Runs, started, follow}
use stellar_bench.Cluster.Logs.{sent_down, taken_down, sent_up, taken_up, down_channel, up_channel}
use stellar_bench.Cluster.DownEvents.{Turn-down}
use stellar_bench.Cluster.Links.{down_Sound, up_Sound}
use stellar_bench.Cluster.UpEvents.{Turn-up}

-- No buffer changes its size.
pub Event-size :
    {rdma_write : List ℕ → ℕ → List ℕ → List ℕ} {c c' : Channel} {new got : List (List ℕ)}
    → Event rdma_write c new got c'
    → length c'.ends.client.buffer ≡ length c.ends.client.buffer
Event-size stays = refl
Event-size (moves (Net.receive m rest pc r)) = refl
Event-size (moves (Net.post pc up)) = refl
Event-size (moves (Net.clear pc)) = refl
Event-size (moves (Net.land len rest w)) = refl
Event-size (moves (Net.arrive len rest pc w)) = refl
Event-size (moves (Net.answer pc up)) = refl
Event-size (fills prepared buf len fits same quiet) = same
Event-size (takes ctx more) = refl

-- At most one message is on its way.
abbrev pub IsDelivered : ℤ → ℤ → List (List ℕ) → List (List ℕ) → Type 0
IsDelivered to_send last sent taken =
    (rest : List (List ℕ)) × (sent ≡ taken ++ rest)
    × (length rest ≤ 1)
    × (to_send ≡ pos (length sent))
    × (last +ℤ pos 1 ≡ pos (length taken))

next-of : (last : ℤ) (t : ℕ) → last ≡ minus_1 t → last +ℤ pos 1 ≡ pos t
next-of last t h = rw h (ground arith)

same_or_next : (k t : ℕ) → t ≤ k → k ≤ t + 1 → (k ≡ t) ⊎ (k ≡ t + 1)
same_or_next k t low high = elim (Bool-cases (k == t)) [
  | inl same ↦ inl (==-eq k t same)
  | inr other ↦ inr (ground arith)
]

Carries-IsDelivered :
    (c : Channel) (sent taken : List (List ℕ))
    → Sound c
    → Carries c sent taken
    → IsDelivered c.sent c.taken sent taken
Carries-IsDelivered c sent taken x v =
    let k = sent_count x v in
    let t = taken_count x v in
    let last = next-of c.taken (length taken) v.taken_all in
    elim (same_or_next (length sent) (length taken)
      (omega (arith, k, t, x.inv.in_order, x.inv.arrived, x.inv.sent))
      (omega (arith, k, t, x.close))) [
        | inl same ↦ ([], v.none_more same ∙ sym (append-nil taken), omega arith, v.sent_all, last)
        | inr next ↦
            let (m, more, holds) = v.one_more next in (m ∷ [], more, omega arith, v.sent_all, last)
      ]

empty-Carries : (c : Channel) → c.sent ≡ pos 0 → c.taken ≡ minus_1 0 → Carries c [] []
empty-Carries c sent_eq taken_eq = record {
  sent_all = sent_eq;
  taken_all = taken_eq;
  none_more = λ h. refl;
  one_more = λ h. absurd (omega arith);
}

module _ (rdma_write : List ℕ → ℕ → List ℕ → List ℕ)
    (writes_start : (src : List ℕ) (len : ℕ) (dst : List ℕ)
      → rdma_write src len dst ≡ take len src ++ drop len dst)
    (n : ℕ) where
  down_Carries :
      {s : Cluster} (r : Runs rdma_write n s) (j : ℕ)
      → j < n
      → length (s.ps.c_ctx j).buffer < 2 ^ 32
      → Carries (down_channel s j) (sent_down r j) (taken_down r j)
  down_Carries (started h) j lt small = empty-Carries _ (h.to_send_iter j lt) (h.recved_age j lt)
  down_Carries (follow {s} r m) j lt small =
      let e = Turn-down rdma_write n s j r m in
      let before = subst (λ k. k < 2 ^ 32) (Event-size e) small in
      Event-Carries rdma_write writes_start (sent_down r j) (taken_down r j)
        (down_Sound rdma_write n r j lt) before (down_Carries r j lt before) e

  up_Carries :
      {s : Cluster} (r : Runs rdma_write n s) (j : ℕ)
      → j < n
      → length (s.worker j).c_ctx.buffer < 2 ^ 32
      → Carries (up_channel s j) (sent_up r j) (taken_up r j)
  up_Carries (started h) j lt small = empty-Carries _ (h.to_send_age j lt) (h.recved_iter j lt)
  up_Carries (follow {s} r m) j lt small =
      let e = Turn-up rdma_write n s j r m in
      let before = subst (λ k. k < 2 ^ 32) (Event-size e) small in
      Event-Carries rdma_write writes_start (sent_up r j) (taken_up r j)
        (up_Sound rdma_write n r j lt) before (up_Carries r j lt before) e

  -- Whatever the threads do when, each worker has taken the messages that the server put into the
  -- buffer for it, byte for byte and in order, but for at most one that is on its way, and the server
  -- those of each worker; the threads' counters count them. The buffers for sending are smaller than
  -- 2^32 bytes.
  pub delivered :
      (s : Cluster) (r : Runs rdma_write n s) (j : ℕ)
      → j < n
      → length (s.ps.c_ctx j).buffer < 2 ^ 32
      → length (s.worker j).c_ctx.buffer < 2 ^ 32
      → IsDelivered (s.ps.to_send_iter j) (s.worker j).recved_age (sent_down r j) (taken_down r j)
        × IsDelivered (s.worker j).to_send_age (s.ps.recved_iter j) (sent_up r j) (taken_up r j)
  delivered s r j lt small_down small_up = (
    Carries-IsDelivered _ _ _ (down_Sound rdma_write n r j lt) (down_Carries r j lt small_down),
    Carries-IsDelivered _ _ _ (up_Sound rdma_write n r j lt) (up_Carries r j lt small_up),
  )
