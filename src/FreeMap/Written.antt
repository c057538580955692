-- ===== src/FreeMap/Written.antt =====
-- lib/kernel/bitmap.c, `bitmap_write`: the free map in its file. The file has the length of the map
-- from the start (`free_map_create`), so the write never extends it: an extension that needed
-- sectors, and so the free map again, is not modelled, and runs `out_of_fuel`.
use operating_system_pl_nt.Prelude.{
  ℕ, ◌<◌, ◌≤◌, ◌≡◌, ◌⊎◌, refl, ◌∙◌, inl, inr, Bool, true, false, some, none, ◌==◌, if◌then◌else◌,
  length, get_or, Outcome, ok, out_of_fuel, ◌>>=◌, arith, eq→==, ne→==,
}
use operating_system_pl_nt.Bitmap.{Bitmap, bitmap_error, byte_cnt, bitmap_scan_and_flip}
use operating_system_pl_nt.Bitmap.Member.{IsValid, member, Sets}
use operating_system_pl_nt.Bitmap.Ranges.{within}
use operating_system_pl_nt.Bitmap.Scan.{
  IsRun, Flipped, flipped, unchanged, bitmap_scan_and_flip-Flipped,
}
use operating_system_pl_nt.FreeMap.{FreeMap, save, free_map_allocate}
use operating_system_pl_nt.Cache.{BufferCache}
use operating_system_pl_nt.Cache.Valid
use operating_system_pl_nt.InodeDisk.{bytes_of_words}
use operating_system_pl_nt.InodeDisk.Codec.{bytes_of_words-length}
use operating_system_pl_nt.Inode.{Inode, Inodes, bytes_to_sectors}
use operating_system_pl_nt.Inode.Reads.{byte_at, IsPlaced}
use operating_system_pl_nt.Inode.Writes.{IsSeparate, Wrote-IsPlaced, Wrote-IsSeparate}
use operating_system_pl_nt.Inode.Overlays.{inode_write_at-Wrote}
use operating_system_pl_nt.File.{File, file_write_at}

unfoldable pub bitmap_write : Bitmap → File → Inodes → Outcome (Bool × Inodes)
bitmap_write b file s = do
  let size = byte_cnt b.bit_cnt
  (written, s) ←
      file_write_at (λ _ _ _. out_of_fuel) file (bytes_of_words b.bits) size 0
        (record { free = record { free_map = b; free_map_file = some file }; rest = s })
  ok (written == size, s.rest)

-- The file of a free map of `cnt` sectors: it may be written, has room for the map, and its sectors
-- are on the device, all different.
pub record IsMapFile (cnt : ℕ) (file : File) (s : Inodes) : Type 0 where
  pub inode : Inode
  pub at : s.inodes file.inode ≡ some inode
  pub allowed : inode.deny_write_cnt ≡ 0
  pub cache : Valid.IsValid s.cache
  pub placed : IsPlaced inode.disk s.cache
  pub separate : IsSeparate inode.disk s.cache (bytes_to_sectors inode.disk.file_length)
  pub room : byte_cnt cnt ≤ inode.disk.file_length

-- The map `b` in the file, in the cache after the write; the file is still in order.
pub record Saved (b : Bitmap) (file : File) (s : Inodes) (i : Inode) (s' : Inodes) : Type 0 where
  pub cache : BufferCache
  pub state : s' ≡ record s { cache = cache }
  pub in_order : IsMapFile b.bit_cnt file s'
  pub bytes :
      (k : ℕ) → k < byte_cnt b.bit_cnt → byte_at i.disk cache k ≡ get_or (bytes_of_words b.bits) k 0

-- `bitmap_write` to a file that is in order returns true, and the file then begins with the words
-- of the map.
pub bitmap_write-Saved :
    (b : Bitmap) (file : File) (s : Inodes)
    → IsValid b
    → (o : IsMapFile b.bit_cnt file s)
    → (s' : Inodes) × (bitmap_write b file s ≡ ok (true, s')) × Saved b file s o.inode s'
unfolding bitmap_write file_write_at
bitmap_write-Saved b file s v o =
    let size : ℕ = byte_cnt b.bit_cnt in
    let given : size ≤ length (bytes_of_words b.bits) =
      omega (arith, bytes_of_words-length b.bits, v.room) in
    let (c', runs, w) =
      inode_write_at-Wrote {F = File} (λ _ _ _. out_of_fuel) file.inode (bytes_of_words b.bits) size
        0 (record { free = record { free_map = b; free_map_file = some file }; rest = s }) o.inode
        o.at o.allowed o.cache o.placed o.separate (omega (arith, o.room)) given in
    (
      record s { cache = c' },
      simp (runs, eq→== size size refl),
      record {
        cache = c';
        state = refl;
        in_order = record {
          inode = o.inode;
          at = o.at;
          allowed = o.allowed;
          cache = w.valid;
          placed = Wrote-IsPlaced o.placed o.separate w;
          separate = Wrote-IsSeparate o.placed o.separate w;
          room = o.room;
        };
        bytes = λ k h. w.byte_eq k (omega (arith, h, o.room)) ∙ ground (arith, h);
      },
    )

-- What a request comes to, with the map in a file that is in order.
abbrev pub Keeps : (m : FreeMap File) (cnt : ℕ) (file : File) (s : Inodes) → Inode → Type 0
Keeps m cnt file s i =
    ((sector : ℕ) × (b : Bitmap) × (s' : Inodes) × (free_map_allocate bitmap_write cnt m s
        ≡ ok (some sector, record m { free_map = b }, s'))
      × IsRun m.free_map sector cnt false
      × Sets m.free_map b (λ j. if within sector cnt j then true else member m.free_map j)
      × Saved b file s i s')
    ⊎ ((free_map_allocate bitmap_write cnt m s ≡ ok (none, m, s))
        × ((k : ℕ) → ¬ IsRun m.free_map k cnt false))

keep_found :
    (cnt sector : ℕ) (m : FreeMap File) (s : Inodes) (b : Bitmap) (file : File)
    → IsValid m.free_map
    → m.free_map_file ≡ some file
    → (o : IsMapFile m.free_map.bit_cnt file s)
    → bitmap_scan_and_flip m.free_map 0 cnt false ≡ ok (sector, b)
    → Flipped m.free_map 0 cnt false sector b
    → Keeps m cnt file s o.inode
unfolding free_map_allocate save
keep_found cnt sector m s b file v opened o flips (unchanged all) =
    inr (simp flips, λ k. all k (omega arith))
keep_found cnt sector m s b file v opened o flips (flipped le run before sets) =
    let small : (sector == bitmap_error) ≡ false =
      ne→== sector bitmap_error (λ e. absurd (omega (arith, v.small, run.fits))) in
    let (s', writes, saved) = bitmap_write-Saved b file s sets.valid (record {
      inode = o.inode;
      at = o.at;
      allowed = o.allowed;
      cache = o.cache;
      placed = o.placed;
      separate = o.separate;
      room = omega (arith, o.room, sets.cnt_eq);
    }) in
    inl (sector, b, s', simp (flips, small, opened, writes, save), run, sets, saved)

-- With the free map in a file that is in order, a request for sectors returns. Where there is a run
-- of free sectors long enough, it takes one and no other sector, and the file holds the new map
-- when it returns; else nothing changes.
pub free_map_allocate-Keeps :
    (cnt : ℕ) (m : FreeMap File) (s : Inodes) (file : File)
    → IsValid m.free_map
    → m.free_map_file ≡ some file
    → (o : IsMapFile m.free_map.bit_cnt file s) → Keeps m cnt file s o.inode
free_map_allocate-Keeps cnt m s file v opened o =
    let (sector, b, flips, f) =
      bitmap_scan_and_flip-Flipped {b = m.free_map} 0 cnt false v (omega arith) in
    keep_found cnt sector m s b file v opened o flips f
