-- ===== src/Freezer/Cgroup.antt =====
-- openwhisk/cgroupFreezer.go: cgroupHandle, the low-level handle on one cgroup v2 directory.
use openwhisk_runtime_go.Base.{Bool, Option, none, some, List, ◌∷◌, String, if◌then◌else◌, str_eq}

-- What one read of a field of cgroup.events gives: its value, or the error of readEventField.
pub data Reading : Type 0 where
  value : String → Reading
  unreadable : Reading

-- The reads that one call of waitForEventField makes, in order. `last` is the first read that
-- ends after the deadline: the deadline is finite, so there is one.
pub data Polls : Type 0 where
  last : Reading → Polls
  more : Reading → Polls → Polls

-- Why an operation on the handle failed.
pub data CgroupError : Type 0 where
  write_failed read_failed timed_out : CgroupError

-- What the kernel answers to one operation: the outcome of the write, then the reads.
pub record Kernel : Type 0 where
  pub write_succeeds : Bool
  pub polls : Polls

-- The control files that the operations write.
pub data Write : Type 0 where
  freeze_on freeze_off kill_all : Write

-- The handle, with the writes that reached the kernel, the latest first.
pub record Handle : Type 0 where
  pub path : String
  pub written : List Write

-- One round of the loop, given what the later rounds return.
poll_once : String → Reading → Option CgroupError → Option CgroupError
poll_once want unreadable later = some read_failed
poll_once want (value got) later = if str_eq got want then none else later

-- The loop of waitForEventField; `none` is success.
unfoldable pub wait_for_event_field : String → Polls → Option CgroupError
unfolding poll_once
wait_for_event_field want (last r) = poll_once want r (some timed_out)
wait_for_event_field want (more r ps) =
    let later = wait_for_event_field want ps in poll_once want r later

-- A write, and on success the wait for the kernel to confirm it.
write_and_wait : Write → String → Kernel → Handle → Handle × Option CgroupError
write_and_wait w want k h =
    if k.write_succeeds
    then (record h { written = w ∷ h.written }, wait_for_event_field want k.polls)
    else (h, some write_failed)

unfoldable pub freeze : Kernel → Handle → Handle × Option CgroupError
unfolding write_and_wait
freeze = write_and_wait freeze_on "1"

unfoldable pub unfreeze : Kernel → Handle → Handle × Option CgroupError
unfolding write_and_wait
unfreeze = write_and_wait freeze_off "0"

unfoldable pub kill : Kernel → Handle → Handle × Option CgroupError
unfolding write_and_wait
kill = write_and_wait kill_all "0"
