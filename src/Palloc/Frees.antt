-- ===== src/Palloc/Frees.antt =====
-- Pages that are freed again.
use mathlib.Core.Path.{subst, subst₂}
use operating_system_pl_nt.Prelude.{
  ℕ, ◌-◌, ◌*◌, ◌/◌, ◌%◌, ◌≡◌, ◌≢◌, ◌==◌, refl, sym, ap, ◌∙◌, inl, inr, Bool, true, false, not,
  Option, none, some, ok, panic, ok-injective, arith, Bool-cases, ne→==,
}
use operating_system_pl_nt.Bitmap.{Bitmap}
use operating_system_pl_nt.Bitmap.Member.{member, Sets}
use operating_system_pl_nt.Bitmap.Ranges.{bitmap_set_multiple-Makes}
use operating_system_pl_nt.Bitmap.Scan.{bitmap_all-flipped}
use operating_system_pl_nt.FreeMap.Alloc.{within_restored}
use operating_system_pl_nt.Palloc.{
  pgsize, Palloc, Flags, pool_of, put_map, fill, palloc_get_multiple, page_from_pool, free_in,
  palloc_free_multiple,
}
use operating_system_pl_nt.Palloc.Pages.{Got, IsPalloc, palloc_get_multiple-Gets}

put_map-map : (u : Bool) (b : Bitmap) (s : Palloc) → (pool_of u (put_map u b s)).used_map ≡ b
put_map-map true b s = refl
put_map-map false b s = refl

put_map-other :
    (u : Bool) (b : Bitmap) (s : Palloc) → pool_of (not u) (put_map u b s) ≡ pool_of (not u) s
put_map-other true b s = refl
put_map-other false b s = refl

free_in-restores :
    (z u : Bool) (cnt : ℕ) (s s' : Palloc) (pages : ℕ)
    → (pool_of u s).base % pgsize ≡ 0
    → (g : Got z u cnt s s' pages)
    → (s'' : Palloc) × (free_in u pages cnt s' ≡ ok s'')
      × Sets (pool_of u s).used_map (pool_of u s'').used_map (member (pool_of u s).used_map)
      × (pool_of (not u) s'' ≡ pool_of (not u) s)
unfolding free_in
free_in-restores z u cnt s s' pages aligned g =
    let place : pages / pgsize - (pool_of u s').base / pgsize ≡ g.idx =
      omega (arith, g.pages_eq, g.base_eq, aligned) in
    let held =
      bitmap_all-flipped (pool_of u s).used_map (pool_of u s').used_map g.idx cnt g.run g.sets in
    let (b, clears, sets) =
      bitmap_set_multiple-Makes {b = (pool_of u s').used_map} g.idx cnt false g.sets.valid
        (omega (arith, g.sets.cnt_eq, g.run.fits)) in
    let back =
      within_restored (pool_of u s).used_map (pool_of u s').used_map b g.idx cnt g.run g.sets
        sets in
    (
      put_map u b (fill pages 0xcc (pgsize * cnt) s'),
      simp (place, held, clears, free_in),
      subst (λ m. Sets (pool_of u s).used_map m (member (pool_of u s).used_map))
          (sym (put_map-map u b (fill pages 0xcc (pgsize * cnt) s'))) back,
      put_map-other u b (fill pages 0xcc (pgsize * cnt) s') ∙ g.other_eq,
    )

-- Which pool the pages are from.
from_kernel :
    (z : Bool) (cnt : ℕ) (s s' : Palloc) (pages : ℕ)
    → cnt ≢ 0
    → IsPalloc s
    → Got z false cnt s s' pages
    → page_from_pool s'.kernel_pool pages ≡ true
unfolding page_from_pool
from_kernel z cnt s s' pages some_pages is g =
    ground (arith, some_pages, g.pages_eq, g.base_eq, g.run.fits, g.sets.cnt_eq, is.kernel_base)

from_user :
    (z : Bool) (cnt : ℕ) (s s' : Palloc) (pages : ℕ)
    → cnt ≢ 0
    → IsPalloc s
    → Got z true cnt s s' pages
    → (page_from_pool s'.kernel_pool pages ≡ false) × (page_from_pool s'.user_pool pages ≡ true)
unfolding page_from_pool
from_user z cnt s s' pages some_pages is g = (
  ap (λ p. page_from_pool p pages) g.other_eq ∙ ground (arith, g.pages_eq, is.user_base, is.apart),
  ground (arith, some_pages, g.pages_eq, g.base_eq, g.run.fits, g.sets.cnt_eq, is.user_base),
)

free_lem :
    (z u : Bool) (cnt : ℕ) (s s' : Palloc) (pages : ℕ)
    → cnt ≢ 0
    → IsPalloc s
    → Got z u cnt s s' pages
    → (s'' : Palloc) × (palloc_free_multiple (some pages) cnt s' ≡ ok s'')
      × Sets (pool_of u s).used_map (pool_of u s'').used_map (member (pool_of u s).used_map)
      × (pool_of (not u) s'' ≡ pool_of (not u) s)
unfolding palloc_free_multiple
free_lem z false cnt s s' pages some_pages is g =
    let (s'', frees, back, other) = free_in-restores z false cnt s s' pages is.kernel_base g in
    let whole : (pages % pgsize == 0) ≡ true = ground (arith, g.pages_eq, is.kernel_base) in
    (
      s'',
      simp (
        whole,
        ne→== cnt 0 some_pages,
        from_kernel z cnt s s' pages some_pages is g,
        frees,
        palloc_free_multiple,
      ),
      back,
      other,
    )
free_lem z true cnt s s' pages some_pages is g =
    let (s'', frees, back, other) = free_in-restores z true cnt s s' pages is.user_base g in
    let whole : (pages % pgsize == 0) ≡ true = ground (arith, g.pages_eq, is.user_base) in
    let (not_kernel, user) = from_user z cnt s s' pages some_pages is g in
    (
      s'',
      simp (whole, ne→== cnt 0 some_pages, not_kernel, user, frees, palloc_free_multiple),
      back,
      other,
    )

-- Pages that the last request gave can be freed, which leaves the same pages free in both pools as
-- before the request.
pub palloc_free_multiple-get_multiple :
    (flags : Flags) (cnt : ℕ) (s s' : Palloc) (pages : ℕ)
    → cnt ≢ 0
    → IsPalloc s
    → palloc_get_multiple flags cnt s ≡ ok (some pages, s')
    → (s'' : Palloc) × (palloc_free_multiple (some pages) cnt s' ≡ ok s'')
      × Sets
          (pool_of flags.pal_user s).used_map
          (pool_of flags.pal_user s'').used_map
          (member (pool_of flags.pal_user s).used_map)
      × (pool_of (not flags.pal_user) s'' ≡ pool_of (not flags.pal_user) s)
palloc_free_multiple-get_multiple flags cnt s s' pages some_pages is e =
    elim (palloc_get_multiple-Gets flags cnt s some_pages is) [
      | inl (p, t, runs, got) ↦
          let same : ◌≡◌ {A = Option ℕ × Palloc} (some p, t) (some pages, s') =
            ok-injective (sym runs ∙ e) in
          let p_eq : p ≡ pages = cc in
          let t_eq : t ≡ s' = ap (λ r. r.1) same in
          free_lem flags.pal_zero flags.pal_user cnt s s' pages some_pages is
            (subst₂ (Got flags.pal_zero flags.pal_user cnt s) t_eq p_eq got)
      | inr (runs, _) ↦ elim (Bool-cases flags.pal_assert) [
        | inl stops ↦
            absurd (let no : panic ≡ ok (some pages, s') = sym (runs ∙ simp stops) ∙ e in cc)
        | inr returns ↦ absurd (
            let no : ok (none, s) ≡ ok (some pages, s') = sym (runs ∙ simp returns) ∙ e in
            let same : ◌≡◌ {A = Option ℕ × Palloc} (none, s) (some pages, s') = ok-injective no in
            let gone : ◌≡◌ {A = Option ℕ} none (some pages) = ap (λ r. r.0) same in cc)
      ]
    ]
