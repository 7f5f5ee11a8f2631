-- ===== src/Interface/Trace.antt =====
-- Programs over the calls of simple_fs/interface.c: the states that sequences of calls lead to.
use spdk_blob_top_fs.File.{Persist}
use spdk_blob_top_fs.Prelude.{
  ℕ, ◌+◌, ◌<◌, ◌≡◌, ◌≢◌, refl, sym, ap, subst, ◌∙◌, Bool, true, false, Option, none, some, List,
  arith, ltb, ◌-◌, Bool-cases, inl, inr,
}
use spdk_blob_top_fs.Fd.Count.{in_use-le, in_use_none}
use spdk_blob_top_fs.Dir.{Dirent, Dir}
use spdk_blob_top_fs.Dir.Room.{HasRoom}
use spdk_blob_top_fs.File.{Bytes, Blobstore, OpenFile, Transferred}
use spdk_blob_top_fs.Monopoly.{Sys, monopoly_close}
use spdk_blob_top_fs.Monopoly.Descriptor.{with_file, read_at, read_fd, write_fd, lseek_fd}
use spdk_blob_top_fs.Monopoly.Sound.{IsSound, close-IsSound, unlink-IsSound}
use spdk_blob_top_fs.Interface.{testfd, spdk_ptop_blobfile, minus_one, descriptor, spdk_open}
use spdk_blob_top_fs.Interface.Calls.{IsSafe, by_us, open-IsSafe, open-admits}
use spdk_blob_top_fs.Interface.Transfer
use spdk_blob_top_fs.Interface.Transfer.{
  Routed, as_int, spdk_close, spdk_read, spdk_write, spdk_lseek, spdk_unlink,
}

-- What holds of the result of a call that the file system serves, if it returns.
abbrev Holds : {X : Type 0} → (X → Type 0) → Routed (Option X) → Type 0
Holds P Transfer.by_kernel = Unit
Holds P (Transfer.by_us none) = Unit
Holds P (Transfer.by_us (some x)) = P x

module _ {B : Blobstore} where
  with_file-IsSound :
      (sys : Sys B) (fd : ℕ) (file : OpenFile B) → IsSound sys → IsSound (with_file B sys fd file)
  with_file-IsSound sys fd file s = record {
    fds = record { counted = s.fds.counted };
    room = s.room;
  }

  read_at-IsSound :
      (sys : Sys B) (fd : ℕ) (r : Transferred B)
      → IsSound sys
      → Holds (λ r. IsSound r.2) (Transfer.by_us (as_int B (read_at B sys fd r)))
  read_at-IsSound sys fd none s = tt
  read_at-IsSound sys fd (some (n, user, file)) s = with_file-IsSound sys fd file s

  -- The descriptor as a program has it is closed as its own.
  close-ours :
      (sys : Sys B) (fd : ℕ)
      → spdk_close B sys (testfd + fd) ≡ Transfer.by_us (monopoly_close B sys fd)
  unfolding spdk_close
  close-ours sys fd =
      let ours : ltb (testfd + fd) testfd ≡ false = ground arith in
      let own : testfd + fd - testfd ≡ fd = omega arith in rw (ours, own) refl

  close-Holds :
      (sys : Sys B) (fd : ℕ)
      → IsSound sys
      → fd < 256
      → sys.fds.used fd ≡ true
      → Holds (λ r. IsSound r.1) (spdk_close B sys (testfd + fd))
  close-Holds sys fd s lt used =
      let (blob, sys', closed, sound, _) = close-IsSound sys fd s lt used in
      rw (close-ours sys fd, closed) sound

  abbrev IsKept : Routed (Option ℕ × Sys B) → Type 0
  IsKept Transfer.by_kernel = Unit
  IsKept (Transfer.by_us (removed, sys)) = IsSound sys

  descriptor-IsSound :
      {first more : ℕ → Dirent} {blob_of : ℕ → B.Blob} {ready : Bool} {fd : ℕ} {sys : Sys B}
      → IsSafe first more blob_of ready (some (descriptor fd sys))
      → IsSound sys
  descriptor-IsSound (by_us fd sys s) = s

module _ {B : Blobstore} (first more : ℕ → Dirent) (blob_of : ℕ → B.Blob)
    (find_dir : List ℕ → Dir → Option ℕ) where
  -- A call that the file system serves, and that returns. A program closes a descriptor that it has
  -- open, and removes an entry that is there.
  pub data Step (sys : Sys B) : Sys B → Type 0 where
    open_step :
        (file : List ℕ) (oflag : ℕ) (blob : B.Blob) (left : Persist) (now fd : ℕ) (sys' : Sys B)
        → spdk_open B first more blob_of sys file oflag blob left now ≡ some (descriptor fd sys')
        → Step sys sys'
    close_step :
        (fd : ℕ) (blob : B.Blob) (sys' : Sys B)
        → fd < 256
        → sys.fds.used fd ≡ true
        → spdk_close B sys (testfd + fd) ≡ Transfer.by_us (some (blob, sys'))
        → Step sys sys'
    read_step :
        (tracked : Bool) (buf_size : ℕ) (shared user : Bytes) (fd nbytes n : ℕ) (user' : Bytes)
        (sys' : Sys B)
        → spdk_read B tracked buf_size shared user sys fd nbytes
          ≡ Transfer.by_us (some (n, user', sys'))
        → Step sys sys'
    write_step :
        (tracked : Bool) (buf_size : ℕ) (shared user : Bytes) (fd nbytes n : ℕ) (user' : Bytes)
        (sys' : Sys B)
        → spdk_write B tracked buf_size shared user sys fd nbytes
          ≡ Transfer.by_us (some (n, user', sys'))
        → Step sys sys'
    lseek_step :
        (fd offset whence pos : ℕ) (sys' : Sys B)
        → spdk_lseek B sys fd offset whence ≡ Transfer.by_us (some (pos, sys'))
        → Step sys sys'
    unlink_step :
        (path : List ℕ) (idx : ℕ) (removed : Option ℕ) (sys' : Sys B)
        → find_dir path sys.workdir ≡ some idx
        → idx < sys.workdir.d_dirent_count
        → spdk_unlink B find_dir sys path ≡ Transfer.by_us (removed, sys')
        → Step sys sys'

  -- No file is open, and the entries of the working directory have room.
  pub record IsStart (sys : Sys B) : Type 0 where
    pub none_open : sys.fds.file_count ≡ 0
    pub unused : (fd : ℕ) → sys.fds.used fd ≡ false
    pub room : HasRoom B.io_unit sys.workdir

  pub data Reachable : Sys B → Type 0 where
    start : {sys : Sys B} → IsStart sys → Reachable sys
    next : {sys sys' : Sys B} → Reachable sys → Step sys sys' → Reachable sys'

  Step-IsSound : {sys sys' : Sys B} → 0 < B.io_unit → IsSound sys → Step sys sys' → IsSound sys'
  unfolding spdk_close spdk_read spdk_write spdk_lseek spdk_unlink read_fd write_fd lseek_fd
  Step-IsSound {sys} pos s (open_step file oflag blob left now fd sys' e) = descriptor-IsSound (
      subst (IsSafe first more blob_of sys.workdir.initialized) e
        (open-IsSafe first more blob_of sys file oflag blob left now pos s))
  Step-IsSound {sys} pos s (close_step fd blob sys' lt used e) =
      subst (Holds (λ r. IsSound r.1)) e (close-Holds sys fd s lt used)
  Step-IsSound {sys} pos s (read_step tracked buf_size shared user fd nbytes n user' sys' e) =
      subst (Holds (λ r. IsSound r.2)) e (elim (Bool-cases (ltb fd testfd)) [
        | inl k ↦ rw k tt
        | inr o ↦ rw o (read_at-IsSound sys (fd - testfd) _ s)
      ])
  Step-IsSound {sys} pos s (write_step tracked buf_size shared user fd nbytes n user' sys' e) =
      subst (Holds (λ r. IsSound r.2)) e (elim (Bool-cases (ltb fd testfd)) [
        | inl k ↦ rw k tt
        | inr o ↦ rw o (with_file-IsSound sys (fd - testfd) _ s)
      ])
  Step-IsSound {sys} pos s (lseek_step fd offset whence p sys' e) =
      subst (Holds (λ r. IsSound r.1)) e (elim (Bool-cases (ltb fd testfd)) [
        | inl k ↦ rw k tt
        | inr o ↦ rw o (with_file-IsSound sys (fd - testfd) _ s)
      ])
  Step-IsSound {sys} pos s (unlink_step path idx removed sys' found lt got) =
      subst (IsKept) got (elim (Bool-cases (spdk_ptop_blobfile path)) [
        | inl o ↦ rw o (unlink-IsSound find_dir sys path idx found s)
        | inr k ↦ rw k tt
      ])

  reached-IsSound : {sys : Sys B} → 0 < B.io_unit → Reachable sys → IsSound sys
  reached-IsSound {sys} pos (start s) = record {
    fds = record { counted = s.none_open ∙ sym (in_use_none sys.fds.used 256 s.unused) };
    room = s.room;
  }
  reached-IsSound pos (next r step) = Step-IsSound pos (reached-IsSound pos r) step

  -- A sound system in which no opening is refused for the number of open files, and in which each
  -- open descriptor can be closed.
  pub record IsOpenable (sys : Sys B) : Type 0 where
    pub sound : IsSound sys
    pub served :
        (file : List ℕ) (oflag : ℕ) (blob : B.Blob) (left : Persist) (now : ℕ)
        → IsSafe first more blob_of sys.workdir.initialized
            (spdk_open B first more blob_of sys file oflag blob left now)
    pub opens :
        (file : List ℕ) (oflag : ℕ) (blob : B.Blob) (left : Persist) (now : ℕ)
        → spdk_open B first more blob_of sys file oflag blob left now ≢ some minus_one
    pub closes :
        (fd : ℕ)
        → fd < 256
        → sys.fds.used fd ≡ true
        → (blob : B.Blob) × (sys' : Sys B) × (spdk_close B sys (testfd + fd)
            ≡ Transfer.by_us (some (blob, sys')))
          × (sys'.fds.used fd ≡ false)

  -- With an io unit above 0, in every state that calls of `__spdk_open`, `__spdk_close`,
  -- `__spdk_read`, `__spdk_write`, `__spdk_lseek` and `__spdk_unlink` lead to, in any order, from
  -- a state with no open file and a unit of the directory's buffer for each entry, where the
  -- program closes only descriptors below 256 that it has open and removes only entries that are
  -- there: the table counts its open files, the directory has a unit for each entry, `__spdk_open`
  -- goes to the C library, or leaves a system of which both hold, or does not return because the
  -- directory is not initialised or some id leads to a blob without the attribute of a file, it
  -- does not refuse an opening for the number of open files, and `__spdk_close` of each descriptor
  -- that is open, raised by TESTFD, returns and leaves it free.
  pub Reachable-IsOpenable : {sys : Sys B} → 0 < B.io_unit → Reachable sys → IsOpenable sys
  Reachable-IsOpenable {sys} pos r =
      let s = reached-IsSound pos r in
      record {
        sound = s;
        served = λ file oflag blob left now.
            open-IsSafe first more blob_of sys file oflag blob left now pos s;
        opens = λ file oflag blob left now.
            open-admits first more blob_of sys file oflag blob left now
              (omega (arith, s.fds.counted, in_use-le sys.fds.used 256));
        closes = λ fd lt used.
            (let (blob, sys', closed, _, free) = close-IsSound sys fd s lt used in
              (blob, sys', close-ours sys fd ∙ ap Transfer.by_us closed, free));
      }
