-- ===== src/TwoSided/Tests.antt =====
-- The theorems of TwoSided on a host with the byte order of the network, where every call succeeds.
use stellar_bench.Base.{ℕ, ◌≡◌, ◌≢◌, refl, some, List, [], ◌∷◌, arith}
use stellar_bench.Context.{Mr}
use stellar_bench.Io.{returned}
use stellar_bench.Verbs.{Call}
use stellar_bench.TwoSided.Client.{ClientWorld}
use stellar_bench.TwoSided.Server.{ServerWorld, server_on_connection}
use stellar_bench.TwoSided.Exchange.{exchange, sends}
use stellar_bench.TwoSided.Session.{session, AllTo}
use stellar_bench.TwoSided.Inputs.{region, library, client, server}

abbrev lengths : List ℕ
lengths = 1056 ∷ 0 ∷ 64 ∷ []

session_example :
    (s₁ : ServerWorld) × (server_on_connection library 2 server ≡ returned tt s₁)
    × (s₂ : ServerWorld) × (c₂ : ClientWorld) × (exchange library 128 129 1 2 lengths (s₁, client)
        ≡ some (s₂, c₂))
    × (s₂.ctx.buf_recv_counter ≡ 3)
    × (c₂.ctx.buf_write_counter ≡ 3)
    × (s₂.ctx.buf_len ≡ 64)
    × AllTo 4096 9 (sends c₂.calls)
session_example =
    session library (λ calls. refl) (λ x small. refl) 128 129 1 2 refl refl lengths server client
      (omega arith, (omega arith, (omega arith, tt))) refl refl

abbrev nonnull : (calls : List Call) → library.pointer calls ≢ 0
nonnull calls = omega arith

abbrev registered : (calls : List Call) → (mr : Mr) × (library.region calls ≡ some mr)
registered calls = (region, refl)
