-- ===== src/Tests/Shmposix.antt =====
-- A registry of object names, and a mapping of a shared memory object with other calls after it.
use sp_rtrace.Prelude.{Bool, false, ℕ, true, List, [], ◌∷◌, some, ◌≡◌, refl, arith}
use sp_rtrace.Proto.Memory.{Bytes}
use sp_rtrace.Modules.File.Calls.{Mode}
use sp_rtrace.Modules.Shmposix.Names.{Names, nreg_hash_exists, find_name, nreg_get_hash}
use sp_rtrace.Modules.Shmposix.Distinct.{Gets, IsDistinct, nreg_get_hash-Gets}
use sp_rtrace.Modules.Shmposix.Trace.{
  fd_posix, Shm, ShmIds, fdreg_get_fd, mapping_type, Use, shm_open, open_file, mmap, munmap, close,
}

abbrev slash_a : Bytes
slash_a = b'/' ∷ b'a' ∷ []

abbrev slash_b : Bytes
slash_b = b'/' ∷ b'b' ∷ []

abbrev one_name : Names
one_name = (slash_b, 77) ∷ []

one_name-IsDistinct : IsDistinct one_name
unfolding nreg_hash_exists find_name
one_name-IsDistinct = (refl, refl, tt)

nreg_get_hash-Gets_example :
    (k : ℕ) × (after : Names) × (nreg_get_hash slash_a one_name ≡ some (k, after))
    × Gets slash_a one_name k after
nreg_get_hash-Gets_example = nreg_get_hash-Gets slash_a one_name (omega arith) one_name-IsDistinct

abbrev shm_ids : ShmIds
shm_ids = record {
  res_pshmmap = 1;
  res_fshmmap = 2;
  res_shmmap = 3;
  res_pshmobj = 4;
  res_pshmfd = 5;
}

-- Descriptor 6 is a shared memory object.
abbrev opened_shm : Shm
opened_shm = record {
  names = one_name;
  fds = (6, record { type = fd_posix; name = slash_b; mode = 66 }) ∷ [];
  addrs = [];
}

abbrev mode_at : Bool → Mode
mode_at lock = record { tracing = true; backtrace_lock = lock }

-- The second close comes from inside `backtrace`.
abbrev later_uses : List (Mode × Use)
later_uses =
    (mode_at false, close 6 0)
    ∷ (mode_at false, shm_open slash_a 66 438 6)
    ∷ (mode_at true, close 6 0)
    ∷ (mode_at false, open_file true slash_a 0 7)
    ∷ (mode_at false, mmap slash_a 4096 3 1 7 0 8192)
    ∷ (mode_at false, munmap 8192 4096 0)
    ∷ []

abbrev mapped_type : ℕ
mapped_type = mapping_type shm_ids (fdreg_get_fd 6 opened_shm)
