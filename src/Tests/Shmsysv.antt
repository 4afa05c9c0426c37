-- ===== src/Tests/Shmsysv.antt =====
-- A segment that is created, attached, marked for destruction and detached.
use sp_rtrace.Prelude.{List, [], ◌∷◌, none, some, ◌≡◌, refl, ◌==◌, if◌then◌else◌}
use sp_rtrace.Prelude.Bits.{bit}
use sp_rtrace.Postproc.Leaks.{type_free}
use sp_rtrace.Modules.Shmposix.Mapped.{resources}
use sp_rtrace.Modules.Shmsysv.{
  ShmidDs, SysvIds, trace_shmdt, Use, shmget, shmctl, shmat, shmdt, reports_all,
}
use sp_rtrace.Modules.Shmsysv.Attached.{attached, then_attached, frees, trace_shmdt-frees}

abbrev sysv_ids : SysvIds
sysv_ids = record { res_segment = 1; res_address = 2; res_control = 3 }

abbrev marked_ds : ShmidDs
marked_ds = record { shm_cpid = 1234; shm_nattch = 1; shm_segsz = 4096; mode = 0x3B6 }

abbrev segment_uses : List Use
segment_uses =
    shmget 4096 0x3B6 5
    ∷ shmat 5 (some marked_ds) 8192
    ∷ shmat 5 (some marked_ds) 16384
    ∷ shmdt 16384 (some marked_ds) 0
    ∷ shmctl 5 0 (some marked_ds) 0
    ∷ []

last_freed :
    frees 1234 8192 sysv_ids (attached 1234 8192 segment_uses none) (some marked_ds)
    ≡ (type_free, 1, 5) ∷ []
unfolding frees attached then_attached bit
last_freed = refl

trace_shmdt-frees_example :
    resources
      (trace_shmdt sysv_ids 1234 8192
        (some marked_ds)
        0
        (reports_all sysv_ids 1234 segment_uses []).0).1
    ≡ (if 0 == 0
        then (type_free, 2, 8192)
          ∷ frees 1234 8192 sysv_ids (attached 1234 8192 segment_uses none) (some marked_ds)
        else [])
trace_shmdt-frees_example = trace_shmdt-frees 1234 8192 sysv_ids segment_uses (some marked_ds) 0
