-- ===== src/Util/Progress.antt =====
-- `ProgressCanRun` of Src/Common/Util/Util.hpp, over the functions of the operating systems that it calls.
use game_project_demo.Common.{
  ℕ, ◌≡◌, refl, Bool, true, false, Option, none, some, ◌++◌, Bytes, codes,
}

-- Of POSIX; a file is its descriptor. `lock_whole` is `fcntl` with `F_SETLK`, which does not wait.
pub record Posix (W : Type 0) : Type 0 where
  pub open_file : Bytes → W → Option ℕ × W
  pub lock_whole : ℕ → W → Bool × W
  pub close_file : ℕ → W → W
  pub truncate : ℕ → W → W
  pub write_pid : ℕ → W → W

-- Of Windows.
pub record Windows (W : Type 0) : Type 0 where
  pub create_mutex : Bytes → W → Option ℕ × W
  pub already_exists : W → Bool
  pub close_handle : ℕ → W → W

abbrev pub lock_file : Bytes → Bytes
lock_file name = codes "/var/run/" ++ name ++ codes ".pid"

module _ {W : Type 0} (os : Posix W) where
  -- After the attempt to lock the file.
  unfoldable pub lock_tried : ℕ → Bool × W → Bool × W
  lock_tried fd (false, w) = (true, os.close_file fd w)
  lock_tried fd (true, w) = (false, os.write_pid fd (os.truncate fd w))

  unfoldable pub file_opened : Option ℕ × W → Bool × W
  file_opened (none, w) = (true, w)
  file_opened (some fd, w) = lock_tried fd (os.lock_whole fd w)

  unfoldable pub progress_can_run : Bytes → W → Bool × W
  progress_can_run name w = file_opened (os.open_file (lock_file name) w)

  -- The program holds the lock of its file, and has written its number there.
  pub record Locked (name : Bytes) (w t : W) : Type 0 where
    pub fd : ℕ
    pub opened : W
    pub locked : W
    pub opens : os.open_file (lock_file name) w ≡ (some fd, opened)
    pub locks : os.lock_whole fd opened ≡ (true, locked)
    pub writes : t ≡ os.write_pid fd (os.truncate fd locked)

  file_opened-Locked :
      (name : Bytes) (w t : W) (o : Option ℕ × W)
      → os.open_file (lock_file name) w ≡ o
      → file_opened o ≡ (false, t)
      → Locked name w t
  unfolding file_opened lock_tried
  file_opened-Locked name w t (none, u) opens answered = absurd (cc)
  file_opened-Locked name w t (some fd, u) opens answered = held (os.lock_whole fd u) refl answered
    where
      held :
          (l : Bool × W) → os.lock_whole fd u ≡ l → lock_tried fd l ≡ (false, t) → Locked name w t
      held (false, v) locks tried = absurd (cc)
      held (true, v) locks tried = record {
        fd = fd;
        opened = u;
        locked = v;
        opens = opens;
        locks = locks;
        writes = cc;
      }

  -- The answer is `false` exactly where the program got the lock, and `true` where another has it or the file
  -- cannot be opened; only then is the descriptor closed.
  pub progress_can_run-Locked :
      (name : Bytes) (w t : W)
      → (progress_can_run name w ≡ (false, t) → Locked name w t)
        × (Locked name w t → progress_can_run name w ≡ (false, t))
  unfolding progress_can_run file_opened lock_tried
  progress_can_run-Locked name w t = (
    λ answered. file_opened-Locked name w t (os.open_file (lock_file name) w) refl answered,
    λ l. rw (l.opens, l.locks, l.writes) refl,
  )

module _ {W : Type 0} (os : Windows W) where
  unfoldable pub existing : ℕ → Bool → W → Bool × W
  existing handle true w = (true, os.close_handle handle w)
  existing handle false w = (false, w)

  unfoldable pub mutex_made : Option ℕ × W → Bool × W
  mutex_made (none, w) = (false, w)
  mutex_made (some handle, w) = existing handle (os.already_exists w) w

  unfoldable pub progress_can_run_windows : Bytes → W → Bool × W
  progress_can_run_windows name w = mutex_made (os.create_mutex name w)
