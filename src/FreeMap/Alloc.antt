-- ===== src/FreeMap/Alloc.antt =====
-- Allocation of sectors on every branch, whatever `bitmap_write` does: it may answer that it has
-- written the map or that it has not, or stop.
use operating_system_pl_nt.Prelude.{
  ℕ, ◌<◌, ◌≡◌, ◌⊎◌, refl, ◌∙◌, inl, inr, Bool, true, false, Option, none, some, Bool-cases,
  Option-cases, ◌==◌, if◌then◌else◌, Outcome, ok, panic, out_of_fuel, arith, ne→==,
}
use operating_system_pl_nt.Bitmap.{Bitmap, bitmap_error, bitmap_scan_and_flip}
use operating_system_pl_nt.Bitmap.Member.{IsValid, member, Sets}
use operating_system_pl_nt.Bitmap.Ranges.{within, bitmap_set_multiple-Makes}
use operating_system_pl_nt.Bitmap.Scan.{
  IsRun, Flipped, flipped, unchanged, bitmap_scan_and_flip-Flipped,
}
use operating_system_pl_nt.FreeMap.{FreeMap, save, free_map_allocate}

-- What becomes of a request for `cnt` sectors.
pub data Allocated {F : Type 0} (m : FreeMap F) (cnt : ℕ) : Option ℕ → FreeMap F → Type 0 where
  -- free sectors, the first that there are, are now in use, and no others change
  taken :
      {sector : ℕ} {b : Bitmap}
      → IsRun m.free_map sector cnt false
      → ((k : ℕ) → k < sector → ¬ IsRun m.free_map k cnt false)
      → Sets m.free_map b (λ j. if within sector cnt j then true else member m.free_map j)
      → Allocated m cnt (some sector) (record m { free_map = b })
  -- there is no such run of free sectors
  full : ((k : ℕ) → ¬ IsRun m.free_map k cnt false) → Allocated m cnt none m
  -- the map could not be written: the sectors are free again
  restored :
      {b : Bitmap}
      → Sets m.free_map b (member m.free_map)
      → Allocated m cnt none (record m { free_map = b })

-- Setting free bits and clearing them again.
pub within_restored :
    (b b1 b2 : Bitmap) (sector cnt : ℕ)
    → IsRun b sector cnt false
    → Sets b b1 (λ j. if within sector cnt j then true else member b j)
    → Sets b1 b2 (λ j. if within sector cnt j then false else member b1 j)
    → Sets b b2 (member b)
within_restored b b1 b2 sector cnt run s1 s2 = record {
  valid = s2.valid;
  cnt_eq = s2.cnt_eq ∙ s1.cnt_eq;
  member_eq = λ j. ground (arith, s2.member_eq j, s1.member_eq j, run.all j);
}

-- One call ends as another that does not return: both stop the kernel, or both run out of fuel.
abbrev pub Stops : {A B : Type 0} → Outcome A → Outcome B → Type 0
Stops q r = ((q ≡ panic) × (r ≡ panic)) ⊎ ((q ≡ out_of_fuel) × (r ≡ out_of_fuel))

Outcome-cases : {A : Type 0} (r : Outcome A) → ((a : A) × (r ≡ ok a)) ⊎ Stops r r
Outcome-cases (ok a) = inl (a, refl)
Outcome-cases panic = inr (inl (refl, refl))
Outcome-cases out_of_fuel = inr (inr (refl, refl))

module _ {F S : Type 0} (bitmap_write : Bitmap → F → S → Outcome (Bool × S)) where
  -- The map is written back to the file it has, by a call that stops.
  pub record Unwritten {A : Type 0} (m : FreeMap F) (cnt : ℕ) (s : S) (r : Outcome A) : Type 0 where
    pub file : F
    pub opened : m.free_map_file ≡ some file
    pub sector : ℕ
    pub map : Bitmap
    pub run : IsRun m.free_map sector cnt false
    pub sets : Sets m.free_map map (λ j. if within sector cnt j then true else member m.free_map j)
    pub ends : Stops (bitmap_write map file s) r

  -- What a request comes to.
  abbrev pub Allocates :
      (m : FreeMap F) (cnt : ℕ) (s : S) → Outcome (Option ℕ × FreeMap F × S) → Type 0
  Allocates m cnt s r =
      ((o : Option ℕ) × (m' : FreeMap F) × (s' : S) × (r ≡ ok (o, m', s')) × Allocated m cnt o m')
      ⊎ Unwritten m cnt s r

  save-cases :
      (m : FreeMap F) (s : S)
      → ((w : Bool × S) × (save bitmap_write m s ≡ ok w))
        ⊎ ((f : F) × (m.free_map_file ≡ some f)
            × Stops (bitmap_write m.free_map f s) (save bitmap_write m s))
  unfolding save
  save-cases m s = elim (Option-cases m.free_map_file) [
    | inl closed ↦ inl ((true, s), rw (closed, save))
    | inr (f, opened) ↦ rw opened (elim (Outcome-cases (bitmap_write m.free_map f s)) [
      | inl (w, e) ↦ inl (w, e)
      | inr stops ↦ inr (f, refl, stops)
    ])
  ]

  grant_found :
      (cnt sector : ℕ) (m : FreeMap F) (s : S) (b : Bitmap)
      → IsValid m.free_map
      → bitmap_scan_and_flip m.free_map 0 cnt false ≡ ok (sector, b)
      → Flipped m.free_map 0 cnt false sector b
      → Allocates m cnt s (free_map_allocate bitmap_write cnt m s)
  unfolding free_map_allocate
  grant_found cnt sector m s b v flips (unchanged all) =
      inl (none, m, s, simp flips, full (λ k. all k (omega arith)))
  grant_found cnt sector m s b v flips (flipped le run before sets) =
      let small : (sector == bitmap_error) ≡ false =
        ne→== sector bitmap_error (λ e. absurd (omega (arith, v.small, run.fits))) in
      elim (save-cases (record m { free_map = b }) s) [
        | inr (f, opened, inl (q, r)) ↦ inr (record {
          file = f;
          opened = opened;
          sector = sector;
          map = b;
          run = run;
          sets = sets;
          ends = inl (q, simp (flips, small, r));
        })
        | inr (f, opened, inr (q, r)) ↦ inr (record {
          file = f;
          opened = opened;
          sector = sector;
          map = b;
          run = run;
          sets = sets;
          ends = inr (q, simp (flips, small, r));
        })
        | inl ((saved, s'), writes) ↦ elim (Bool-cases saved) [
          | inl good ↦ inl (
            some sector,
            record m { free_map = b },
            s',
            simp (flips, small, writes, good),
            taken run (λ k. before k (omega arith)) sets,
          )
          | inr bad ↦
              let (b2, clears, sets2) =
                bitmap_set_multiple-Makes {b = b} sector cnt false sets.valid
                  (omega (arith, sets.cnt_eq, run.fits)) in
              inl (
                none,
                record m { free_map = b2 },
                s',
                simp (flips, small, writes, bad, clears),
                restored (within_restored m.free_map b b2 sector cnt run sets sets2),
              )
        ]
      ]

  -- A request for sectors takes the first run of free sectors, or finds that there is none, or,
  -- where `bitmap_write` answers that the map was not written, leaves every sector as it was. It
  -- fails to return only where there is a run of free sectors, the map has a file, and
  -- `bitmap_write` of the map in which the run is taken stops; then it stops in the same way.
  pub free_map_allocate-Allocated :
      (cnt : ℕ) (m : FreeMap F) (s : S)
      → IsValid m.free_map
      → Allocates m cnt s (free_map_allocate bitmap_write cnt m s)
  free_map_allocate-Allocated cnt m s v =
      let (sector, b, flips, f) =
        bitmap_scan_and_flip-Flipped {b = m.free_map} 0 cnt false v (omega arith) in
      grant_found cnt sector m s b v flips f
