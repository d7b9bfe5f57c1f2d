-- ===== src/TestPrograms/Rounds.antt =====
-- What a round of test_send and one of test_recv change: nothing, or a message is put in or printed.
use stellar_bench.Base.{
  ℕ, ◌+◌, ◌≡◌, ◌≤◌, ◌<◌, refl, sym, ◌∙◌, true, false, some, List, [], ◌∷◌, ◌++◌, leb, ltb, length,
  Bool-cases, inl, inr, ◌⊎◌, arith, replicate, drop, length-append, length-replicate, length-drop,
  >>=-eq-some, some_inj,
}
use stellar_bench.Memory.{read}
use stellar_bench.Fill.{fill_from-filled}
use stellar_bench.TestPrograms.{Pair, letter, send_round, recv_round}

not-ltb : (a b : ℕ) → b ≤ a → ltb a b ≡ false
not-ltb a b h = ground arith

ltb-false : (a b : ℕ) → ltb a b ≡ false → b ≤ a
ltb-false a b h = ground arith

leb-false : (a b : ℕ) → leb a b ≡ false → b < a
leb-false a b h = ground arith

-- The buffer with a new message in it.
abbrev pub lettered : ℕ → ℕ → List ℕ → List ℕ
lettered len k buffer = replicate len (letter k) ++ drop len buffer

pub length-lettered :
    (len k : ℕ) (buffer : List ℕ)
    → len ≤ length buffer
    → length (lettered len k buffer) ≡ length buffer
length-lettered len k buffer h = omega (
  arith,
  length-append (replicate len (letter k)) (drop len buffer),
  length-replicate len (letter k),
  length-drop len buffer,
)

-- The state after a message has been put into the buffer.
abbrev pub put_in : Pair → Pair
put_in s = record s {
  ends = record (s.ends) {
    client = record (s.ends.client) {
      buffer = lettered s.ends.client.buf_len s.to_send_counter s.ends.client.buffer;
      can_send = true;
    };
  };
  to_send_counter = s.to_send_counter + 1;
}

pub send_round-fills :
    (s : Pair)
    → s.to_send_counter ≤ s.ends.client.buf_write_counter
    → s.ends.client.buf_len ≤ length s.ends.client.buffer
    → send_round s ≡ some (put_in s)
unfolding send_round
send_round-fills s h room =
    rw
      (
        not-ltb s.ends.client.buf_write_counter s.to_send_counter h,
        fill_from-filled s.ends.client.buf_len 0 (letter s.to_send_counter) [] s.ends.client.buffer
            refl room,
      )
      refl

send_round-waits :
    (s : Pair)
    → ltb s.ends.client.buf_write_counter s.to_send_counter ≡ true
    → send_round s ≡ some s
unfolding send_round
send_round-waits s waits = rw waits refl

pub send_round-cases :
    (s : Pair) {t : Pair}
    → s.ends.client.buf_len ≤ length s.ends.client.buffer
    → send_round s ≡ some t
    → (t ≡ s) ⊎ ((s.to_send_counter ≤ s.ends.client.buf_write_counter) × (t ≡ put_in s))
send_round-cases s {t} room h =
    elim (Bool-cases (ltb s.ends.client.buf_write_counter s.to_send_counter)) [
      | inl waits ↦ inl (sym (some_inj (sym (send_round-waits s waits) ∙ h)))
      | inr more ↦
          let le = ltb-false s.ends.client.buf_write_counter s.to_send_counter more in
          inr (le, sym (some_inj (sym (send_round-fills s le room) ∙ h)))
    ]

-- The state after a line has been printed.
abbrev pub printed_line : Pair → List ℕ → Pair
printed_line s line = record s {
  ends = record (s.ends) { conn = record (s.ends.conn) { can_recv = true } };
  read_counter = s.read_counter + 1;
  printed = line ∷ s.printed;
}

pub recv_round-cases :
    (s : Pair) {t : Pair}
    → recv_round s ≡ some t
    → (t ≡ s)
      ⊎ ((s.read_counter < s.ends.conn.buf_recv_counter)
          × (line : List ℕ) × (t ≡ printed_line s line))
unfolding recv_round
recv_round-cases s {t} h = elim (Bool-cases (leb s.ends.conn.buf_recv_counter s.read_counter)) [
  | inl waits ↦ let e = rw waits at h in inl (sym (some_inj e))
  | inr more ↦
      let e = rw more at h in
      let (line, e₁, h₁) = >>=-eq-some (read s.ends.conn.buffer 0 s.ends.conn.buf_len) _ e in
      inr (leb-false s.ends.conn.buf_recv_counter s.read_counter more, line, sym (some_inj h₁))
]
