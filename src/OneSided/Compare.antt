-- ===== src/OneSided/Compare.antt =====
-- check_src_dst of client_rdma_op.cpp, which compares two buffers after a remote write and read back.
use stellar_bench.Base.{
  ℕ, zero, suc, some_inj, ◌≡◌, ◌≤◌, ◌↔◌, refl, sym, ap, ◌∙◌, Option, some, List, [], ◌∷◌, ◌>>=◌,
  length, take, le→leb, arith,
}
use Prim.Native.Nat.{Ordering, compare}
use stellar_bench.Memory.{read}

-- The sign of what `memcmp` returns for the bytes of two objects of the same size.
unfoldable pub memcmp : List ℕ → List ℕ → Ordering
memcmp (a ∷ as₁) (b ∷ bs) = elim (compare a b) [ Ordering.eq ↦ memcmp as₁ bs | other ↦ other ]
memcmp _ _ = Ordering.eq

-- `sizeof(src)`: `src` is a pointer.
abbrev pub pointer_size : ℕ
pointer_size = 8

-- The objects that `src` and `dst` point to: both are null as they are declared, and a read through a null
-- pointer is the fault `none`.
unfoldable pub check_src_dst : Option (List ℕ) → Option (List ℕ) → Option Ordering
unfolding memcmp
check_src_dst src dst = do
  src_bytes ← src
  dst_bytes ← dst
  a ← read src_bytes 0 pointer_size
  b ← read dst_bytes 0 pointer_size
  some (memcmp a b)

memcmp-same : (xs : List ℕ) → memcmp xs xs ≡ Ordering.eq
unfolding memcmp
memcmp-same [] = refl
memcmp-same (x ∷ xs) = ground (arith, memcmp-same xs)

memcmp-eq : (xs ys : List ℕ) → length xs ≡ length ys → memcmp xs ys ≡ Ordering.eq → xs ≡ ys
unfolding memcmp
memcmp-eq [] [] e h = refl
memcmp-eq [] (y ∷ ys) e h = absurd (omega arith)
memcmp-eq (x ∷ xs) [] e h = absurd (omega arith)
memcmp-eq (x ∷ xs) (y ∷ ys) e h = ground (arith, memcmp-eq xs ys)

read_first : (xs : List ℕ) → pointer_size ≤ length xs → read xs 0 pointer_size ≡ some (take 8 xs)
unfolding read
read_first xs h = rw (le→leb pointer_size (length xs) h)

length-take : (n : ℕ) (xs : List ℕ) → n ≤ length xs → length (take n xs) ≡ n
length-take zero xs h = refl
length-take (suc n) [] h = elim h [ ]
length-take (suc n) (x ∷ xs) h = ap suc (length-take n xs (omega arith))

length_first :
    (xs ys : List ℕ)
    → pointer_size ≤ length xs
    → pointer_size ≤ length ys
    → length (take 8 xs) ≡ length (take 8 ys)
length_first xs ys hx hy = omega (arith, length-take 8 xs hx, length-take 8 ys hy)

-- If there were any, check_src_dst would find two buffers of at least 8 bytes the same exactly if their first
-- 8 bytes are, however long they are and whatever stands behind.
pub check_src_dst-eq_iff :
    (src dst : List ℕ)
    → pointer_size ≤ length src
    → pointer_size ≤ length dst
    → (check_src_dst (some src) (some dst) ≡ some Ordering.eq) ↔ (take 8 src ≡ take 8 dst)
unfolding check_src_dst
check_src_dst-eq_iff src dst hs hd =
    rw (read_first src hs, read_first dst hd)
      (
        (λ e. memcmp-eq (take 8 src) (take 8 dst) (length_first src dst hs hd) (some_inj e)),
        (λ e. ap some (ap (memcmp (take 8 src)) (sym e) ∙ memcmp-same (take 8 src))),
      )
