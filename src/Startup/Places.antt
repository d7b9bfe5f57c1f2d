-- ===== src/Startup/Places.antt =====
-- The blocks that the server's `main` creates, as its runs need them: each stands at its id, and its
-- fields and elements are bit patterns of their types.
use stellar_bench.Base.{
  ℕ, zero, suc, ◌+◌, ◌*◌, ◌^◌, ◌≡◌, ◌≤◌, ◌<◌, refl, sym, ap, ◌∙◌, some, List, [], ◌∷◌, map, length,
  get_elem?, set, replicate, length-replicate, >>=-eq-some, some_inj, arith,
}
use mathlib.Core.Path.{subst}
use stellar_bench.Block.{Block, Region}
use stellar_bench.Memory.Laws.{AreWords}
use stellar_bench.Wire.RoundTrip.{IsRepresentable}
use stellar_bench.Partition.{full_height}
use stellar_bench.Partition.Tiling.{rows_of, tile, tiles, partition_block-tiles}
use stellar_bench.Partition.Cover.{full_height-slack}
use stellar_bench.Cluster.Laid.{Place, place, AreIndexed, AllRepresentable, Stay}
use stellar_bench.Cluster.Laid.Store.{set-Stay}
use stellar_bench.Startup.Blocks.{
  Values, p_value, q_value, fill_block, fill_blocks, fill_block-valued, valued, create_blocks,
  create_blocks-HasValue,
}

-- The arithmetic gives 64-bit patterns.
abbrev pub AreValues : Values → Type 0
AreValues v = ((a b : ℕ) → v.mul a b < 2 ^ 64) × ((a b : ℕ) → v.add a b < 2 ^ 64)

-- What `malloc` returns: objects of the size asked for, with any words.
abbrev pub IsMalloc : (ℕ → Region) → Type 0
IsMalloc alloc = (k : ℕ) → (length (alloc k).words ≡ k) × AreWords (alloc k).words

-- A matrix of so many rows, cut into `n` blocks, has `int`s for its rows and its elements.
abbrev pub FitsInt : ℕ → ℕ → ℕ → Type 0
FitsInt rc_num dim n = (rc_num + n ≤ 2 ^ 31) × (rc_num * dim < 2 ^ 31)

AreWords-replicate : (k value : ℕ) → value < 2 ^ 64 → AreWords (replicate k value)
AreWords-replicate zero value h = tt
AreWords-replicate (suc k) value h = (h, AreWords-replicate k value h)

valued-IsRepresentable :
    (value : ℕ) (b : Block) → value < 2 ^ 64 → IsRepresentable b → IsRepresentable (valued value b)
valued-IsRepresentable value b h r = record {
  well_formed = record { counted = length-replicate b.ele_num value; small = r.well_formed.small };
  id_fits = r.id_fits;
  age_fits = r.age_fits;
  sta_fits = r.sta_fits;
  height_fits = r.height_fits;
  is_p_fits = r.is_p_fits;
  words_fit = AreWords-replicate b.ele_num value h;
}

rows_of-bounded : (rc_num height i : ℕ) → rows_of rc_num height i ≤ rc_num
rows_of-bounded rc_num height i = ground arith

times_le : (a b c : ℕ) → a ≤ b → a * c ≤ b * c
times_le a b c h = grind arith

-- The first rows of the blocks.
starts_bounded : (rc_num n i : ℕ) → i < n → i * full_height rc_num n ≤ rc_num + n
starts_bounded rc_num n i lt = omega (
  arith,
  times_le i n (full_height rc_num n) (omega arith),
  full_height-slack rc_num n (omega arith),
)

module _ (alloc : ℕ → Region) (rc_num dim n : ℕ) (memory : IsMalloc alloc)
    (fits : FitsInt rc_num dim n) where
  tile-IsRepresentable :
      (i : ℕ) (b : Block)
      → i < n
      → IsRepresentable b
      → IsRepresentable (tile alloc rc_num dim (full_height rc_num n) i b)
  tile-IsRepresentable i b lt r =
      let rows = rows_of rc_num (full_height rc_num n) i in
      let few = rows_of-bounded rc_num (full_height rc_num n) i in
      record {
        well_formed = record {
          counted = (memory (rows * dim)).0;
          small = omega (arith, times_le rows rc_num dim few, fits.1);
        };
        id_fits = omega (arith, fits.0);
        age_fits = omega arith;
        sta_fits = omega (arith, starts_bounded rc_num n i lt, fits.0);
        height_fits = omega (arith, few, fits.0);
        is_p_fits = r.is_p_fits;
        words_fit = (memory (rows * dim)).1;
      }

  tiles-AllRepresentable :
      (left i : ℕ) (blocks : List Block)
      → i + left ≤ n
      → AllRepresentable blocks
      → AllRepresentable (tiles alloc rc_num dim (full_height rc_num n) left i blocks)
  tiles-AllRepresentable zero i blocks h all k c e = all k c e
  tiles-AllRepresentable (suc left) i [] h all k c e = cc
  tiles-AllRepresentable (suc left) i (b ∷ blocks) h all zero c e =
      subst IsRepresentable (some_inj e) (tile-IsRepresentable i b (omega arith) (all zero b refl))
  tiles-AllRepresentable (suc left) i (b ∷ blocks) h all (suc k) c e =
      tiles-AllRepresentable left (i + 1) blocks (omega arith) (λ l. all (suc l)) k c e

  tiles-ids :
      (left i j : ℕ) (blocks : List Block) (c : Place)
      → j < left
      → get_elem? (map place (tiles alloc rc_num dim (full_height rc_num n) left i blocks)) j
        ≡ some c
      → c.block_id ≡ i + j
  tiles-ids zero i j blocks c h e = elim h [ ]
  tiles-ids (suc left) i j [] c h e = cc
  tiles-ids (suc left) i zero (b ∷ blocks) c h e =
      sym (ap Place.block_id (some_inj e)) ∙ omega arith
  tiles-ids (suc left) i (suc j) (b ∷ blocks) c h e =
      tiles-ids left (i + 1) j blocks c (omega arith) e ∙ omega arith

fill_blocks-Stay :
    (v : Values) (left i : ℕ) (at_p at_q : List Place) (ps qs : List Block)
    {out : List Block × List Block}
    → AreValues v
    → Stay at_p ps
    → Stay at_q qs
    → fill_blocks v left i ps qs ≡ some out
    → Stay at_p out.0 × Stay at_q out.1
unfolding fill_blocks
fill_blocks-Stay v zero i at_p at_q ps qs vals sp sq h =
    subst (λ (t : List Block × List Block). Stay at_p t.0 × Stay at_q t.1) (some_inj h) (sp, sq)
fill_blocks-Stay v (suc left) i at_p at_q ps qs vals sp sq h =
    let (p, e₁, h₁) = >>=-eq-some (get_elem? ps i) _ h in
    let (p', e₂, h₂) = >>=-eq-some _ _ h₁ in
    let (q, e₃, h₃) = >>=-eq-some (get_elem? qs i) _ h₂ in
    let (q', e₄, h₄) = >>=-eq-some _ _ h₃ in
    let filled : (at : List Place) (bs : List Block) (b b' : Block) (value : ℕ)
        → value < 2 ^ 64
        → Stay at bs
        → get_elem? bs i ≡ some b
        → fill_block value b ≡ some b'
        → Stay at (set bs i b') =
      λ at bs b b' value small s e run.
        let r = s.all i b e in
        subst (λ x. Stay at (set bs i x))
          (some_inj (sym (fill_block-valued value b r.well_formed.counted) ∙ run))
          (set-Stay at bs i b (valued value b) s e refl (valued-IsRepresentable value b small r)) in
    fill_blocks-Stay v left (i + 1) at_p at_q (set ps i p') (set qs i q') vals
      (filled at_p ps p p' (p_value v i) (vals.0 _ _) sp e₁ e₂)
      (filled at_q qs q q' (q_value v i) (vals.1 _ _) sq e₃ e₄) h₄

-- The blocks of one array after the start.
pub record AreCreated (n : ℕ) (blocks : List Block) : Type 0 where
  pub indexed : AreIndexed n (λ j. j) (map place blocks)
  pub representable : AllRepresentable blocks

-- The server's `main` creates them so.
pub create_blocks-AreCreated :
    (v : Values) (alloc : ℕ → Region) (rows cols dim n : ℕ) (ps qs : List Block)
    → AreValues v
    → IsMalloc alloc
    → FitsInt rows dim n
    → FitsInt cols dim n
    → 0 < n
    → n ≤ length ps
    → n ≤ length qs
    → AllRepresentable ps
    → AllRepresentable qs
    → (ps' qs' : List Block) × (create_blocks v alloc rows cols dim n ps qs ≡ some (ps', qs'))
      × AreCreated n ps'
      × AreCreated n qs'
unfolding create_blocks
create_blocks-AreCreated v alloc rows cols dim n ps qs vals memory p_fits q_fits one p_room q_room
      p_all q_all =
    let (ps', qs', run, _) =
      create_blocks-HasValue v alloc rows cols dim n ps qs (λ k. (memory k).0) one p_room q_room in
    let p_tiles = tiles alloc rows dim (full_height rows n) n 0 ps in
    let q_tiles = tiles alloc cols dim (full_height cols n) n 0 qs in
    let run' =
      rw
        (
          partition_block-tiles alloc rows dim (full_height rows n) n ps one p_room refl,
          partition_block-tiles alloc cols dim (full_height cols n) n qs one q_room refl,
        )
        at run in
    let (sp, sq) =
      fill_blocks-Stay v n 0 (map place p_tiles) (map place q_tiles) p_tiles q_tiles vals
        (record {
          same = refl;
          all = tiles-AllRepresentable alloc rows dim n memory p_fits n 0 ps (omega arith) p_all;
        })
        (record {
          same = refl;
          all = tiles-AllRepresentable alloc cols dim n memory q_fits n 0 qs (omega arith) q_all;
        })
        run' in
    (
      ps',
      qs',
      run,
      record {
        indexed = λ j c lt e.
            tiles-ids alloc rows dim n memory p_fits n 0 j ps c lt
              (ap (λ t. get_elem? t j) (sym sp.same) ∙ e)
            ∙ omega arith;
        representable = sp.all;
      },
      record {
        indexed = λ j c lt e.
            tiles-ids alloc cols dim n memory q_fits n 0 j qs c lt
              (ap (λ t. get_elem? t j) (sym sq.same) ∙ e)
            ∙ omega arith;
        representable = sq.all;
      },
    )
