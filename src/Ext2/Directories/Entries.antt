-- ===== src/Ext2/Directories/Entries.antt =====
-- kernel/src/fs/ext2/ext2.c: a directory as the list of its entries.
use beeos.Prelude.{
  ℕ, zero, suc, ◌+◌, ◌-◌, ◌*◌, ◌/◌, ◌%◌, ◌^◌, ◌≤◌, ◌<◌, ◌≡◌, refl, ap, Option, none, some, take,
  get_or, List, [], ◌∷◌, length, Bool-cases, inl, inr, true, false, ltb, ◌==◌, if◌then◌else◌, arith,
}
use beeos.Prelude.Int.{ℤ, pos}
use beeos.Vfs.{same_name}
use beeos.Ext2.{Super, Inode}
use beeos.Ext2.Directories.{
  Entry, entry_at, chars_at, Walk, at_entry, at_end, search, pick, found, listed, ext2_lookup,
  ext2_readdir,
}

-- The bytes of a text from `p` on.
unfoldable pub Chars : List ℕ → ℕ → List ℕ → Type 0
Chars buf p [] = Unit
Chars buf p (c ∷ cs) = (get_or buf p 0 ≡ c) × Chars buf (p + 1) cs

-- The bytes of an entry at `p`, low ones first: its inode, its length, that of its name, and the name.
pub record Written (buf : List ℕ) (p : ℕ) (e : Entry) : Type 0 where
  pub ino_range : e.ino < 2 ^ 32
  pub ino_low : get_or buf (p + 0) 0 ≡ e.ino % 256
  pub ino_second : get_or buf (p + 1) 0 ≡ e.ino / 256 % 256
  pub ino_third : get_or buf (p + 2) 0 ≡ e.ino / 65536 % 256
  pub ino_high : get_or buf (p + 3) 0 ≡ e.ino / 16777216
  pub len_range : e.rec_len < 2 ^ 16
  pub len_low : get_or buf (p + 4) 0 ≡ e.rec_len % 256
  pub len_high : get_or buf (p + 5) 0 ≡ e.rec_len / 256
  pub name_len : get_or buf (p + 6) 0 ≡ length e.name
  pub name : Chars buf (p + 8) e.name

-- The `count` bytes at `p` are the entries, one behind the other, each with room for its name.
unfoldable pub Laid : List ℕ → ℕ → ℕ → List Entry → Type 0
Laid buf p count [] = count ≡ 0
Laid buf p count (e ∷ es) =
    Written buf p e
    × (8 + length e.name ≤ e.rec_len)
    × (e.rec_len ≤ count)
    × Laid buf (p + e.rec_len) (count - e.rec_len) es

-- The entries that begin at least 264 bytes, the size of the structure, before the end.
unfoldable pub visible : ℕ → List Entry → List Entry
visible count [] = []
visible count (e ∷ es) =
    let rest = visible (count - e.rec_len) es in if ltb count 264 then [] else e ∷ rest

-- The first entry of a name.
first_named : List ℕ → List Entry → Walk
first_named name [] = at_end
first_named name (e ∷ es) =
    let rest = first_named name es in if same_name name e.name then at_entry e else rest

nth_entry : ℕ → List Entry → Walk
nth_entry i [] = at_end
nth_entry i (e ∷ es) = let rest = nth_entry (i - 1) es in if i == 0 then at_entry e else rest

chars_at-Chars :
    (buf : List ℕ) (p : ℕ) (cs : List ℕ) → Chars buf p cs → chars_at buf p (length cs) ≡ cs
unfolding chars_at Chars
chars_at-Chars buf p [] h = refl
chars_at-Chars buf p (c ∷ cs) (e, h) = rw e (ap (λ l. c ∷ l) (chars_at-Chars buf (p + 1) cs h))

entry_at-Written :
    (buf : List ℕ) (p : ℕ) (e : Entry)
    → Written buf p e
    → ((entry_at buf p).ino ≡ e.ino)
      × ((entry_at buf p).rec_len ≡ e.rec_len)
      × ((entry_at buf p).name ≡ e.name)
unfolding entry_at
entry_at-Written buf p e w = (
  omega (arith, w.ino_range, w.ino_low, w.ino_second, w.ino_third, w.ino_high),
  omega (arith, w.len_range, w.len_low, w.len_high),
  rw w.name_len (chars_at-Chars buf (p + 8) e.name w.name),
)

-- The walk of `ext2_lookup` ends at the first visible entry of the name, and at the end when there is
-- none; that of `ext2_readdir` ends at the visible entry with the index, and at the end when there are
-- not as many.
search-pick :
    (fuel : ℕ) (name : List ℕ) (i : ℕ) (buf : List ℕ) (p count : ℕ) (es : List Entry)
    → Laid buf p count es
    → length es < fuel
    → (search fuel name buf p count ≡ some (first_named name (visible count es)))
      × (pick fuel i buf p count ≡ some (nth_entry i (visible count es)))
unfolding search pick Laid first_named nth_entry visible
search-pick zero name i buf p count es l f = absurd (omega (arith, f))
search-pick (suc n) name i buf p count [] l f =
    let last : ltb count 264 ≡ true = ground (arith, l) in (rw last refl, rw last refl)
search-pick (suc n) name i buf p count (e ∷ es) (at, room, inside, l) f =
    elim (Bool-cases (ltb count 264)) [
      | inl last ↦ (rw last refl, rw last refl)
      | inr go ↦
          let (number, len, text) = entry_at-Written buf p e at in
          let nonzero : (e.rec_len == 0) ≡ false = ground (arith, room) in
          let within : ltb count e.rec_len ≡ false = ground (arith, inside) in
          let (found, picked) =
            search-pick n name (i - 1) buf (p + e.rec_len) (count - e.rec_len) es l
              (omega (arith, f)) in
          (
            rw (go, text, len, number)
                (elim (Bool-cases (same_name name e.name)) [
                  | inl same ↦ rw same refl
                  | inr differ ↦ rw (differ, nonzero, within) found
                ]),
            rw (go, text, len, number)
                (elim (Bool-cases (i == 0)) [
                  | inl here ↦ rw here refl
                  | inr later ↦ rw (later, nonzero, within) picked
                ]),
          )
    ]

length-Laid :
    (buf : List ℕ) (p count : ℕ) (es : List Entry) → Laid buf p count es → length es ≤ count
unfolding Laid
length-Laid buf p count [] l = omega arith
length-Laid buf p count (e ∷ es) (at, room, inside, l) =
    let rest = length-Laid buf (p + e.rec_len) (count - e.rec_len) es l in
    omega (arith, rest, room, inside)

-- The low 16 bits of the inode of the first entry of a name.
unfoldable pub ino_named : List ℕ → List Entry → Option ℕ
ino_named name [] = none
ino_named name (e ∷ es) =
    let rest = ino_named name es in if same_name name e.name then some (e.ino % 2 ^ 16) else rest

-- What a listing gives at an index: behind the last entry the size.
unfoldable pub nth_listed : ℕ → ℕ → List Entry → ℤ × Option (ℕ × List ℕ)
nth_listed size i [] = (pos size, none)
nth_listed size i (e ∷ es) =
    let rest = nth_listed size (i - 1) es in
    if i == 0 then (pos 0, some (e.ino % 2 ^ 16, take 64 e.name)) else rest

found-ino_named :
    (name : List ℕ) (es : List Entry)
    → found (some (first_named name es)) ≡ some (ino_named name es)
unfolding first_named ino_named
found-ino_named name [] = refl
found-ino_named name (e ∷ es) = elim (Bool-cases (same_name name e.name)) [
  | inl same ↦ rw same refl
  | inr differ ↦ rw differ (found-ino_named name es)
]

listed-nth_listed :
    (size i : ℕ) (es : List Entry)
    → listed size (some (nth_entry i es)) ≡ some (nth_listed size i es)
unfolding nth_entry nth_listed
listed-nth_listed size i [] = refl
listed-nth_listed size i (e ∷ es) = elim (Bool-cases (i == 0)) [
  | inl here ↦ rw here refl
  | inr later ↦ rw later (listed-nth_listed size (i - 1) es)
]

-- When the device gives the bytes of a directory, which are its entries one behind the other, and
-- there is memory for them, only the entries that begin at least 264 bytes before the end are seen:
-- `ext2_lookup` asks for the inode of the first of them that has the name, by the low 16 bits of its
-- number, or finds none; `ext2_readdir` gives these bits and at most 64 characters of the name of the one
-- with the index, and returns the size of the directory when there are not as many.
pub ext2_lookup-ext2_readdir :
    (devfs_read : ℕ → ℕ → ℕ → ℤ × List ℕ) (dir : Inode) (sb : Super) (buf : List ℕ)
    (es : List Entry) (name : List ℕ) (i : ℕ)
    → devfs_read sb.dev dir.size (dir.blocks 0 * 1024 % 2 ^ 32) ≡ (pos dir.size, buf)
    → Laid buf 0 dir.size es
    → let seen = visible dir.size es in
      (ext2_lookup devfs_read true name dir sb ≡ some (ino_named name seen))
      × (ext2_readdir devfs_read true i dir sb ≡ some (nth_listed dir.size i seen))
unfolding ext2_lookup ext2_readdir
ext2_lookup-ext2_readdir devfs_read dir sb buf es name i read laid =
    let few = length-Laid buf 0 dir.size es laid in
    let seen = visible dir.size es in
    let (finds, picks) =
      search-pick (dir.size + 1) name i buf 0 dir.size es laid (omega (arith, few)) in
    let whole : (dir.size == dir.size) ≡ true = ground arith in
    (
      rw (read, whole, finds) (found-ino_named name seen),
      rw (read, whole, picks) (listed-nth_listed dir.size i seen),
    )
