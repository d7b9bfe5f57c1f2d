-- ===== src/Cluster/Laid/Store.antt =====
-- The places of the blocks under what the threads do with them: the age that a message gets, and the
-- stores of a block that was received.
use stellar_bench.Base.{
  ℕ, zero, suc, ◌≡◌, refl, sym, ap, ◌∙◌, some, Option, List, [], ◌∷◌, map, length, get_elem?, set,
  >>=-eq-some, some_inj, ℤ,
}
use mathlib.Core.Path.{subst}
use mathlib.Core.Option
use stellar_bench.Block.{Block, Region}
use stellar_bench.Wire.{Received, overwrite}
use stellar_bench.Memory.Laws.{AreWords}
use stellar_bench.Wire.RoundTrip.{IsRepresentable, contents}
use stellar_bench.Ps
use stellar_bench.Ps.{Ps}
use stellar_bench.Worker
use stellar_bench.Worker.{Worker}
use stellar_bench.Delivery.Buffers.{overwrite_all}
use stellar_bench.Delivery.Down.{aged, aged-IsRepresentable, taken_by, Worker-store_block}
use stellar_bench.Cluster.Laid.{Place, place, AllRepresentable, Stay, Sits}

get_elem?-map :
    (blocks : List Block) (i : ℕ) (b : Block)
    → get_elem? blocks i ≡ some b
    → get_elem? (map place blocks) i ≡ some (place b)
get_elem?-map [] i b h = cc
get_elem?-map (x ∷ xs) zero b h = ap (λ (t : Option Block). Option.map place t) h
get_elem?-map (x ∷ xs) (suc i) b h = get_elem?-map xs i b h

map-set_same :
    (blocks : List Block) (i : ℕ) (b b' : Block)
    → get_elem? blocks i ≡ some b
    → place b' ≡ place b
    → map place (set blocks i b') ≡ map place blocks
map-set_same [] i b b' h e = refl
map-set_same (x ∷ xs) zero b b' h e = ap (λ c. c ∷ map place xs) (e ∙ ap place (sym (some_inj h)))
map-set_same (x ∷ xs) (suc i) b b' h e = ap (λ t. place x ∷ t) (map-set_same xs i b b' h e)

set-AllRepresentable :
    (blocks : List Block) (i : ℕ) (b' : Block)
    → AllRepresentable blocks
    → IsRepresentable b'
    → AllRepresentable (set blocks i b')
set-AllRepresentable [] i b' all r j b h = cc
set-AllRepresentable (x ∷ xs) zero b' all r zero b h = subst IsRepresentable (some_inj h) r
set-AllRepresentable (x ∷ xs) zero b' all r (suc j) b h = all (suc j) b h
set-AllRepresentable (x ∷ xs) (suc i) b' all r zero b h = all zero b h
set-AllRepresentable (x ∷ xs) (suc i) b' all r (suc j) b h =
    set-AllRepresentable xs i b' (λ k c. all (suc k) c) r j b h

module _ (places : List Place) where
  -- An entry of the array sits at its index.
  pub Stay-Sits :
      (blocks : List Block) (i : ℕ) (b : Block)
      → Stay places blocks
      → get_elem? blocks i ≡ some b
      → Sits places i b
  Stay-Sits blocks i b s h = record {
    here = ap (λ t. get_elem? t i) (sym s.same) ∙ get_elem?-map blocks i b h;
    fits = s.all i b h;
  }

  -- A block in the place of one with the same place.
  pub set-Stay :
      (blocks : List Block) (i : ℕ) (b b' : Block)
      → Stay places blocks
      → get_elem? blocks i ≡ some b
      → place b' ≡ place b
      → IsRepresentable b'
      → Stay places (set blocks i b')
  set-Stay blocks i b b' s h e r = record {
    same = map-set_same blocks i b b' h e ∙ s.same;
    all = set-AllRepresentable blocks i b' s.all r;
  }

  pub aged-Sits : (age : ℤ) (i : ℕ) (b : Block) → Sits places i b → Sits places i (aged age b)
  aged-Sits age i b s = record { here = s.here; fits = aged-IsRepresentable age b s.fits }

  pub aged-Stay :
      (blocks : List Block) (i : ℕ) (b : Block) (age : ℤ)
      → Stay places blocks
      → get_elem? blocks i ≡ some b
      → Stay places (set blocks i (aged age b))
  aged-Stay blocks i b age s h =
      set-Stay blocks i b (aged age b) s h refl (aged-IsRepresentable age b (s.all i b h))

  -- What the server stores of a message with a block that sits at its index.
  pub Ps-store-Stay :
      (blocks : List Block) (i : ℕ) (x : Block) (r : Received) {blocks' : List Block}
      → ((c : Place) → get_elem? places i ≡ some c → c.block_id ≡ i)
      → Stay places blocks
      → Sits places i x
      → r ≡ contents x
      → Ps.store_block blocks r ≡ some blocks'
      → Stay places blocks'
  unfolding Ps.store_block
  Ps-store-Stay blocks i x r {blocks'} indexed s sits e h =
      let at_x = rw e at h in
      let (old, e₁, h₁) = >>=-eq-some (get_elem? blocks x.block_id) _ at_x in
      let (words, e₂, h₂) = >>=-eq-some (overwrite old.eles.words x.eles.words) _ h₁ in
      let old_sits = Stay-Sits blocks x.block_id old s e₁ in
      let id : x.block_id ≡ i = indexed (place x) sits.here in
      let same : place x ≡ place old =
        some_inj (sym sits.here ∙ ap (get_elem? places) (sym id) ∙ old_sits.here) in
      let size : length x.eles.words ≡ length old.eles.words =
        sits.fits.well_formed.counted
        ∙ ap Place.ele_num same
        ∙ sym old_sits.fits.well_formed.counted in
      let all_of : x.eles.words ≡ words =
        some_inj (sym (overwrite_all old.eles.words x.eles.words size) ∙ e₂) in
      let new : Block = record old {
        block_id = x.block_id;
        sta_idx = x.sta_idx;
        height = x.height;
        ele_num = x.ele_num;
        is_p = x.is_p;
        eles = record { addr = old.eles.addr; words = words };
        data_age = x.data_age;
      } in
      let fits : IsRepresentable new = record {
        well_formed = record {
          counted = ap (length {A = ℕ}) (sym all_of) ∙ sits.fits.well_formed.counted;
          small = sits.fits.well_formed.small;
        };
        id_fits = sits.fits.id_fits;
        age_fits = sits.fits.age_fits;
        sta_fits = sits.fits.sta_fits;
        height_fits = sits.fits.height_fits;
        is_p_fits = sits.fits.is_p_fits;
        words_fit = subst AreWords all_of sits.fits.words_fit;
      } in
      subst (Stay places) (some_inj h₂) (set-Stay blocks x.block_id old new s e₁ same fits)

  -- What a worker stores of it.
  pub Worker-store-Sits :
      (alloc : ℕ → Region) (old x : Block) (i : ℕ) (r : Received) {b : Block}
      → ((k : ℕ) → length (alloc k).words ≡ k)
      → IsRepresentable old
      → Sits places i x
      → r ≡ contents x
      → Worker.store_block alloc old r ≡ some b
      → Sits places i b
  Worker-store-Sits alloc old x i r {b} sized old_fits sits e h =
      let stored : taken_by alloc old x ≡ b = some_inj (
        sym (Worker-store_block alloc old x sized sits.fits.well_formed)
        ∙ ap (Worker.store_block alloc old) (sym e)
        ∙ h) in
      let fits : IsRepresentable (taken_by alloc old x) = record {
        well_formed = record {
          counted = sits.fits.well_formed.counted;
          small = sits.fits.well_formed.small;
        };
        id_fits = sits.fits.id_fits;
        age_fits = sits.fits.age_fits;
        sta_fits = sits.fits.sta_fits;
        height_fits = sits.fits.height_fits;
        is_p_fits = old_fits.is_p_fits;
        words_fit = sits.fits.words_fit;
      } in
      subst (Sits places i) stored (record { here = sits.here; fits = fits })
