-- ===== src/Cluster/Payloads.antt =====
-- What a message carries of a block: all that `rdma_recvTd` copies from it but `isP`, which the server
-- copies and a worker does not.
use stellar_bench.Base.{ℕ, ◌≡◌, refl, ap, ◌∙◌, ◌++◌, List, [], ◌∷◌, map, length, take, arith}
use stellar_bench.Block.{Block}
use stellar_bench.Wire.Image.{image}
use stellar_bench.Wire.RoundTrip.{IsRepresentable}

pub record Payload : Type 0 where
  pub block_id : ℕ
  pub data_age : ℕ
  pub sta_idx : ℕ
  pub height : ℕ
  pub ele_num : ℕ
  pub words : List ℕ

-- A P block and a Q block, and what a message carries of them.
abbrev pub BlockPair : Type 0
BlockPair = Block × Block

abbrev pub PayloadPair : Type 0
PayloadPair = Payload × Payload

-- The words are the first `ele_num` of the object, which may be larger.
abbrev pub payload : Block → Payload
payload b = record {
  block_id = b.block_id;
  data_age = b.data_age;
  sta_idx = b.sta_idx;
  height = b.height;
  ele_num = b.ele_num;
  words = take b.ele_num b.eles.words;
}

abbrev pub payloads : BlockPair → PayloadPair
payloads (p, q) = (payload p, payload q)

abbrev pub message : BlockPair → List ℕ
message (p, q) = image p q

abbrev pub AreRepresentable : List BlockPair → Type 0
AreRepresentable [] = Unit {0}
AreRepresentable ((p, q) ∷ rest) = IsRepresentable p × IsRepresentable q × AreRepresentable rest

pub AreRepresentable-append :
    (xs ys : List BlockPair)
    → AreRepresentable (xs ++ ys)
    → AreRepresentable xs × AreRepresentable ys
AreRepresentable-append [] ys h = (tt, h)
AreRepresentable-append ((p, q) ∷ xs) ys (rp, rq, h) =
    let (hx, hy) = AreRepresentable-append xs ys h in ((rp, rq, hx), hy)

-- If the bytes `m` are the message of two blocks, then `x` is what it carries.
abbrev pub IsRead : List ℕ → PayloadPair → Type 0
IsRead m x =
    (b : BlockPair) → IsRepresentable b.0 → IsRepresentable b.1 → m ≡ message b → x ≡ payloads b

-- Message by message.
pub data Reads : List (List ℕ) → List PayloadPair → Type 0 where
  nil : Reads [] []
  cons :
      {m : List ℕ} {ms : List (List ℕ)} {x : PayloadPair} {xs : List PayloadPair}
      → IsRead m x
      → Reads ms xs
      → Reads (m ∷ ms) (x ∷ xs)

pub Reads-append :
    {ms ns : List (List ℕ)} {xs ys : List PayloadPair}
    → Reads ms xs
    → Reads ns ys
    → Reads (ms ++ ns) (xs ++ ys)
Reads-append Reads.nil h = h
Reads-append (Reads.cons r rs) h = Reads.cons r (Reads-append rs h)

-- What was read is what was sent, but for a rest at the end.
pub Reads-sent :
    {taken : List (List ℕ)} {xs : List PayloadPair} (bs : List BlockPair) (rest : List (List ℕ))
    → Reads taken xs
    → AreRepresentable bs
    → map message bs ≡ taken ++ rest
    → (back : List PayloadPair) × (map payloads bs ≡ xs ++ back) × (length back ≡ length rest)
Reads-sent bs rest Reads.nil rep e =
    (map payloads bs, refl, length-maps bs ∙ ap (length {A = List ℕ}) e)
  where
    length-maps : (cs : List BlockPair) → length (map payloads cs) ≡ length (map message cs)
    length-maps [] = refl
    length-maps (c ∷ cs) = omega (arith, length-maps cs)
Reads-sent [] rest (Reads.cons r rs) rep e = cc
Reads-sent ((p, q) ∷ bs) rest (Reads.cons r rs) (rp, rq, rep) e =
    let (back, same, size) = Reads-sent bs rest rs rep (cc) in
    (back, rw (r (p, q) rp rq (cc), same) refl, size)
