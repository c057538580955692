-- ===== src/File/Denials.antt =====
-- `file_deny_write` and `file_allow_write`.
use operating_system_pl_nt.Prelude.{
  ℕ, ◌+◌, ◌-◌, ◌<◌, ◌≡◌, ◌≢◌, sym, ap, ◌∙◌, Bool, true, false, some, ok, Outcome, update,
  update_self, arith, ltb, leb, ne→==,
}
use operating_system_pl_nt.Block.{Bytes}
use operating_system_pl_nt.Bitmap.{Bitmap}
use operating_system_pl_nt.Inode.{
  Inode, Inodes, inode_at, put_inode, inode_deny_write, inode_allow_write,
}
use operating_system_pl_nt.Inode.Space.{Fs, inode_write_at}
use operating_system_pl_nt.File.{File, file_deny_write, file_allow_write, file_write_at}

abbrev denied : Inode → Inode
denied i = record i { deny_write_cnt = i.deny_write_cnt + 1 }

inode_at-some : (s : Inodes) (p : ℕ) {i : Inode} → s.inodes p ≡ some i → inode_at s p ≡ ok i
unfolding inode_at
inode_at-some s p at = rw (at, inode_at)

module _ (s : Inodes) (p : ℕ) (i : Inode) (at : s.inodes p ≡ some i)
    (openers : i.deny_write_cnt < i.open_cnt) where
  deny_lem : inode_deny_write p s ≡ ok (put_inode s p (denied i))
  unfolding inode_deny_write
  deny_lem =
      let counted : leb (i.deny_write_cnt + 1) i.open_cnt ≡ true = ground arith in
      simp (inode_at-some s p at, inode_deny_write, counted)

  allowed : Inode
  allowed = record i { deny_write_cnt = i.deny_write_cnt + 1 - 1 }

  allow_lem :
      inode_allow_write p (put_inode s p (denied i))
      ≡ ok (put_inode (put_inode s p (denied i)) p allowed)
  unfolding inode_allow_write allowed
  allow_lem =
      let counted : leb (i.deny_write_cnt + 1) i.open_cnt ≡ true = ground arith in
      let above : ltb 0 (i.deny_write_cnt + 1) ≡ true = ground arith in
      simp (
        inode_at-some (put_inode s p (denied i)) p (update_self s.inodes p (some (denied i))),
        inode_allow_write,
        counted,
        above,
      )

  allowed_eq : allowed ≡ i
  unfolding allowed
  allowed_eq = ap (λ n. record i { deny_write_cnt = n }) (omega arith)

-- While the count is not 0, a write does nothing.
write_denied :
    (bitmap_write : Bitmap → File → Inodes → Outcome (Bool × Inodes)) (p : ℕ) (buffer : Bytes)
    (size ofs : ℕ) (fs : Fs File) (i : Inode)
    → fs.rest.inodes p ≡ some i
    → i.deny_write_cnt ≢ 0
    → inode_write_at bitmap_write p buffer size ofs fs ≡ ok (0, fs)
unfolding inode_write_at
write_denied bitmap_write p buffer size ofs fs i at n =
    simp (inode_at-some fs.rest p at, inode_write_at, ne→== i.deny_write_cnt 0 n)

-- A file whose inode has an opener that has not denied writes can deny them. Then a write through
-- any file of that inode writes nothing and changes nothing, and allowing writes again gives the
-- inode and the file back.
pub file_deny_write-Denies :
    (bitmap_write : Bitmap → File → Inodes → Outcome (Bool × Inodes)) (file : File) (s : Inodes)
    (i : Inode)
    → file.deny_write ≡ false
    → s.inodes file.inode ≡ some i
    → i.deny_write_cnt < i.open_cnt
    → (file' : File) × (s' : Inodes) × (file_deny_write file s ≡ ok (file', s'))
      × ((other : File) (buffer : Bytes) (size ofs : ℕ) (fs : Fs File)
          → other.inode ≡ file.inode
          → fs.rest ≡ s'
          → file_write_at bitmap_write other buffer size ofs fs ≡ ok (0, fs))
      × ((s'' : Inodes) × (file_allow_write file' s' ≡ ok (file, s''))
          × (s''.inodes file.inode ≡ some i))
unfolding file_deny_write file_allow_write file_write_at
file_deny_write-Denies bitmap_write file s i plain at openers =
    let s' : Inodes = put_inode s file.inode (denied i) in
    let p : ℕ = file.inode in
    let allowed_at : update s'.inodes p (some (allowed s p i at openers)) p ≡ some i =
      update_self s'.inodes p (some (allowed s p i at openers))
      ∙ ap some (allowed_eq s p i at openers) in
    (
      record file { deny_write = true },
      s',
      simp (plain, file_deny_write, deny_lem s p i at openers),
      λ other buffer size ofs fs same in_denied.
          write_denied bitmap_write other.inode buffer size ofs fs (denied i)
            (simp (in_denied, same) (update_self s.inodes p (some (denied i))))
            (λ z. absurd (omega (arith, z))),
      (
        put_inode s' p (allowed s p i at openers),
        simp (file_allow_write, allow_lem s p i at openers)
            (ap
              (λ b. ok (record file { deny_write = b }, put_inode s' p (allowed s p i at openers)))
              (sym plain)),
        allowed_at,
      ),
    )
