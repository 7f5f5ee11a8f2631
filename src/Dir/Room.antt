-- ===== src/Dir/Room.antt =====
-- The buffer of a directory's entries: its size in io units, and whether the entries fit.
use native.Mathlib.Nat.{mul-div_left, div_self}
use spdk_blob_top_fs.Prelude.{
  ℕ, ◌+◌, ◌*◌, ◌/◌, ◌≤◌, ◌<◌, ◌≡◌, ap, ◌∙◌, true, List, arith, ◌==◌, leb, Bool-cases, inl, inr,
}
use spdk_blob_top_fs.Dir.{
  Dirent, Dir, first_unit, next_unit, prepare, append_dirent, add_dirent, remove_dirent,
}

-- The buffer has at least one io unit for each entry.
pub record HasRoom (io_unit : ℕ) (dir : Dir) : Type 0 where
  pub units : ℕ
  pub size : dir.d_size ≡ units * io_unit
  pub enough : dir.d_dirent_count ≤ units

pub le-mul : (m u : ℕ) → 0 < u → m ≤ m * u
le-mul m u pos = grind arith

-- With io units of at least the size of an entry, the entries lie within the buffer.
pub entries_fit :
    (io_unit : ℕ) (dir : Dir)
    → 520 ≤ io_unit
    → HasRoom io_unit dir
    → dir.d_dirent_count * 520 ≤ dir.d_size
entries_fit io_unit dir large r =
    let step : r.units * 520 ≤ r.units * io_unit = grind arith in omega (arith, r.size, r.enough)

pub remove_dirent-HasRoom :
    (io_unit idx : ℕ) (dir : Dir) → HasRoom io_unit dir → HasRoom io_unit (remove_dirent idx dir)
unfolding remove_dirent
remove_dirent-HasRoom io_unit idx dir r = record {
  units = r.units;
  size = r.size;
  enough = omega (arith, r.enough);
}

module _ (io_unit : ℕ) (pos : 0 < io_unit) (first more : ℕ → Dirent) where
  pub first_unit-HasRoom :
      (dir : Dir) → HasRoom io_unit dir → HasRoom io_unit (first_unit io_unit first more dir)
  unfolding first_unit
  first_unit-HasRoom dir r = elim (Bool-cases (dir.d_size == 0)) [
    | inl empty ↦ rw empty (record {
      units = 1;
      size = omega arith;
      enough = ground (arith, r.size, r.enough, le-mul r.units io_unit pos);
    })
    | inr has ↦ rw has r
  ]

  -- After the second test there is a unit for one more entry.
  pub record HasSpare (dir : Dir) : Type 0 where
    pub units : ℕ
    pub size : dir.d_size ≡ units * io_unit
    pub enough : dir.d_dirent_count + 1 ≤ units

  next_unit-HasSpare :
      (dir : Dir) → HasRoom io_unit dir → HasSpare (next_unit io_unit first more dir)
  unfolding next_unit
  next_unit-HasSpare dir r =
      let units : dir.d_size / io_unit ≡ r.units =
        ap (λ (t : ℕ). t / io_unit) r.size ∙ mul-div_left r.units pos in
      elim (Bool-cases (leb (dir.d_size / io_unit) (dir.d_dirent_count * 520))) [
        | inl tight ↦ rw tight (record {
          units = r.units + 1;
          size = omega (arith, r.size);
          enough = omega (arith, r.enough);
        })
        | inr spare ↦ rw spare (record { units = r.units; size = r.size; enough = ground arith })
      ]

  prepared-HasSpare : (dir : Dir) → HasRoom io_unit dir → HasSpare (prepare io_unit first more dir)
  unfolding prepare
  prepared-HasSpare dir r = next_unit-HasSpare _ (
      first_unit-HasRoom (record dir { dirty = true })
        (record { units = r.units; size = r.size; enough = r.enough }))

  -- With an io unit above 0, the addition of an entry keeps a unit of the buffer for each entry.
  pub add_dirent-HasRoom :
      (id : ℕ) (s : List ℕ) (dir : Dir)
      → HasRoom io_unit dir
      → HasRoom io_unit (add_dirent io_unit first more id s dir)
  unfolding add_dirent append_dirent
  add_dirent-HasRoom id s dir r =
      let p = prepared-HasSpare dir r in
      record { units = p.units; size = p.size; enough = p.enough }

  pub initialized-add_dirent :
      (id : ℕ) (s : List ℕ) (dir : Dir)
      → (add_dirent io_unit first more id s dir).initialized ≡ dir.initialized
  unfolding add_dirent append_dirent prepare first_unit next_unit
  initialized-add_dirent id s dir = ground arith

  -- With an io unit above 0 and below 520 bytes, the first entry that is added to an empty
  -- directory reaches beyond its buffer.
  add_dirent_overflow :
      (id : ℕ) (s : List ℕ) (dir : Dir)
      → io_unit < 520
      → dir.d_size ≡ 0
      → dir.d_dirent_count ≡ 0
      → let dir' = add_dirent io_unit first more id s dir in dir'.d_size < dir'.d_dirent_count * 520
  unfolding add_dirent append_dirent prepare first_unit next_unit
  add_dirent_overflow id s dir small empty unused = ground (arith, div_self pos)
