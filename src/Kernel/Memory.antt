-- ===== src/Kernel/Memory.antt =====
-- A kernel in memory that keeps the laws: regular files only, writes of at most three bytes, reads
-- of one, and every pending signal interrupts the next read or write.
use nes_deck.Prelude.{
  ℕ, zero, suc, ◌<◌, ◌≡◌, ◌≢◌, refl, ap, ◌∙◌, arith, inl, inr, true, false, Bool-cases, [], ◌∷◌,
  ◌++◌, Option, none, some, if◌then◌else◌, Bytes, equal, equal_iff, length, take, drop, length-take,
  min,
}
use nes_deck.Kernel.{
  Kernel, KernelLaws, CreateResult, created, exists, OpenResult, opened, missing, WriteResult,
  wrote, write_interrupted, ReadResult, chunk, read_interrupted, StatResult, stat_of, stat_failed,
  SameBut, Created, Opened, Stat, Read, Wrote, Renamed,
}

pub record MemoryDisk : Type 0 where
  pub files : Bytes → Option Bytes
  pub pending : ℕ

-- The files with one path set to something, or to nothing.
abbrev pub put : Bytes → Option Bytes → MemoryDisk → MemoryDisk
put q v d = record d { files = λ p. if equal p q then v else d.files p }

abbrev pub contents : Option Bytes → Bytes
contents none = []
contents (some bytes) = bytes

unfoldable pub create_in : Option Bytes → Bytes → MemoryDisk → CreateResult × MemoryDisk
create_in none q d = (created, put q (some []) d)
create_in (some old) q d = (exists, d)

unfoldable pub open_in : Option Bytes → MemoryDisk → OpenResult × MemoryDisk
open_in none d = (missing, d)
open_in (some old) d = (opened, d)

unfoldable pub stat_in : Option Bytes → MemoryDisk → StatResult × MemoryDisk
stat_in none d = (stat_failed, d)
stat_in (some old) d = (stat_of true (length old), d)

unfoldable pub read_in : ℕ → Bytes → ℕ → ℕ → MemoryDisk → ReadResult × MemoryDisk
read_in zero q offset limit d = (chunk (take (min 1 limit) (drop offset (contents (d.files q)))), d)
read_in (suc n) q offset limit d = (read_interrupted, record d { pending = n })

unfoldable pub write_in : ℕ → Bytes → Bytes → MemoryDisk → WriteResult × MemoryDisk
write_in zero q bytes d =
    let n = min 3 (length bytes) in (wrote n, put q (some (contents (d.files q) ++ take n bytes)) d)
write_in (suc n) q bytes d = (write_interrupted, record d { pending = n })

abbrev pub memory : Kernel
memory = record {
  Disk = MemoryDisk;
  content = λ d. d.files;
  pending = λ d. d.pending;
  pid = 42;
  create_exclusive = λ q d. create_in (d.files q) q d;
  open_file = λ q d. open_in (d.files q) d;
  stat = λ q d. stat_in (d.files q) d;
  read = λ q offset limit d. read_in d.pending q offset limit d;
  write = λ q bytes d. write_in d.pending q bytes d;
  fsync = λ q d. (true, d);
  close = λ q d. (true, d);
  rename = λ a b d. (true, put b (d.files a) (put a none d));
  unlink = λ q d. (true, put q none d);
  sync_directory = λ q d. d;
}

equal_refl : (p : Bytes) → equal p p ≡ true
equal_refl p = (equal_iff p p).1 refl

equal_ne : {p q : Bytes} → p ≢ q → equal p q ≡ false
equal_ne {p} {q} ne = elim (Bool-cases (equal p q)) [
  | inl same ↦ absurd (ne ((equal_iff p q).0 same))
  | inr other ↦ other
]

put_self : (q : Bytes) (v : Option Bytes) (d : MemoryDisk) → (put q v d).files q ≡ v
put_self q v d = rw (equal_refl q)

put_ne : (q : Bytes) (v : Option Bytes) (d : MemoryDisk) → SameBut memory q d (put q v d)
put_ne q v d p ne = rw (equal_ne ne)

create_in-Created :
    (o : Option Bytes) (q : Bytes) (d : MemoryDisk)
    → d.files q ≡ o
    → Created memory q d (create_in o q d).0 (create_in o q d).1
unfolding create_in
create_in-Created none q d e = (put_ne q (some []) d, e, put_self q (some []) d)
create_in-Created (some old) q d e = λ p. refl

open_in-Opened :
    (o : Option Bytes) (q : Bytes) (d : MemoryDisk)
    → d.files q ≡ o
    → Opened memory q d (open_in o d).0 (open_in o d).1
unfolding open_in
open_in-Opened none q d e = (λ p. refl, e)
open_in-Opened (some old) q d e = λ p. refl

stat_in-Stat :
    (o : Option Bytes) (q : Bytes) (d : MemoryDisk)
    → d.files q ≡ o
    → Stat memory q d (stat_in o d).0 (stat_in o d).1
unfolding stat_in
stat_in-Stat none q d e = λ p. refl
stat_in-Stat (some old) q d e = (λ p. refl, λ t n. cc)

take-length : (n : ℕ) (xs : Bytes) → take n xs ≡ take (length (take n xs)) xs
take-length zero xs = refl
take-length (suc n) [] = refl
take-length (suc n) (x ∷ xs) = ap (◌∷◌ x) (take-length n xs)

take-nil : (n : ℕ) (xs : Bytes) → 0 < n → take n xs ≡ [] → xs ≡ []
take-nil zero xs h e = absurd (omega arith)
take-nil (suc n) [] h e = refl
take-nil (suc n) (x ∷ xs) h e = cc

taken :
    (whole : Bytes) (offset limit : ℕ)
    → (take (min 1 limit) (drop offset whole)
        ≡ take (length (take (min 1 limit) (drop offset whole))) (drop offset whole))
      × (take (min 1 limit) (drop offset whole) ≡ [] → 0 < limit → drop offset whole ≡ [])
taken whole offset limit = (
  take-length (min 1 limit) (drop offset whole),
  λ e h. take-nil (min 1 limit) (drop offset whole) (omega arith) e,
)

renamed :
    (a b : Bytes) (d : MemoryDisk) → Renamed memory a b d true (put b (d.files a) (put a none d))
renamed a b d = (
  λ p na nb. rw (equal_ne nb, equal_ne na),
  λ ne. rw (equal_ne ne, equal_refl a),
  rw (equal_refl b),
)

read_in-Read :
    (n : ℕ) (q : Bytes) (offset limit : ℕ) (d : MemoryDisk)
    → d.pending ≡ n
    → Read memory q offset limit d (read_in n q offset limit d).0 (read_in n q offset limit d).1
unfolding read_in
read_in-Read zero q offset limit d e = (
  λ p. refl,
  λ whole is. rw is (taken whole offset limit),
  omega (arith, length-take (min 1 limit) (drop offset (contents (d.files q)))),
  omega arith,
)
read_in-Read (suc n) q offset limit d e = (λ p. refl, omega arith)

write_in-Wrote :
    (n : ℕ) (q bytes : Bytes) (d : MemoryDisk)
    → d.pending ≡ n
    → Wrote memory q bytes d (write_in n q bytes d).0 (write_in n q bytes d).1
unfolding write_in
write_in-Wrote zero q bytes d e =
    let n = min 3 (length bytes) in
    (
      put_ne q (some (contents (d.files q) ++ take n bytes)) d,
      λ old is. put_self q (some (contents (d.files q) ++ take n bytes)) d ∙ rw is,
      omega arith,
      omega arith,
    )
write_in-Wrote (suc n) q bytes d e = (λ p. refl, omega arith)

pub memory-KernelLaws : KernelLaws memory
memory-KernelLaws = record {
  create_law = λ q d. create_in-Created (d.files q) q d refl;
  open_law = λ q d. open_in-Opened (d.files q) q d refl;
  stat_law = λ q d. stat_in-Stat (d.files q) q d refl;
  read_law = λ q offset limit d. read_in-Read d.pending q offset limit d refl;
  write_law = λ q bytes d. write_in-Wrote d.pending q bytes d refl;
  fsync_law = λ q d p. refl;
  close_law = λ q d p. refl;
  rename_law = renamed;
  unlink_law = λ q d. (put_ne q none d, put_self q none d);
  sync_law = λ q d p. refl;
}
