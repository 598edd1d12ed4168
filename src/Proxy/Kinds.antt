-- ===== src/Proxy/Kinds.antt =====
-- openwhisk/filetype.go: the kinds of a file, by its first bytes.
use openwhisk_runtime_go.Base.{
  ℕ, zero, suc, Bool, false, ◌&&◌, ◌||◌, [], ◌∷◌, if◌then◌else◌, ◌==◌, ltb, length,
}
use openwhisk_runtime_go.Base.Text.{Bytes, codes, same}

-- buf[i] == b, for an index within the buffer.
unfoldable pub holds : ℕ → ℕ → Bytes → Bool
holds i b [] = false
holds zero b (c ∷ buf) = c == b
holds (suc i) b (c ∷ buf) = holds i b buf

unfoldable pub is_elf : Bytes → Bool
is_elf buf =
    ltb 52 (length buf)
    && (holds 0 127 buf && (holds 1 69 buf && (holds 2 76 buf && holds 3 70 buf)))

unfoldable pub is_exe : Bytes → Bool
is_exe buf = ltb 1 (length buf) && (holds 0 77 buf && holds 1 90 buf)

unfoldable pub is_mach64 : Bytes → Bool
is_mach64 buf =
    ltb 4 (length buf)
    && (holds 0 207 buf && (holds 1 250 buf && (holds 2 237 buf && holds 3 254 buf)))

unfoldable pub is_bang_path : Bytes → Bool
is_bang_path buf = ltb 2 (length buf) && (holds 0 b'#' buf && holds 1 b'!' buf)

unfoldable pub is_executable : Bytes → Bytes → Bool
unfolding is_mach64 is_bang_path is_elf is_exe
is_executable buf runtime =
    if same runtime (codes "darwin")
    then is_mach64 buf || is_bang_path buf
    else if same runtime (codes "linux")
    then is_elf buf || is_bang_path buf
    else if same runtime (codes "windows")
    then is_exe buf
    else false

unfoldable pub is_zip : Bytes → Bool
is_zip buf =
    ltb 3 (length buf)
    && ((holds 0 80 buf && holds 1 75 buf)
        && ((holds 2 3 buf || (holds 2 5 buf || holds 2 7 buf))
            && (holds 3 4 buf || (holds 3 6 buf || holds 3 8 buf))))

unfoldable pub is_gz : Bytes → Bool
is_gz buf = ltb 3 (length buf) && (holds 0 31 buf && (holds 1 139 buf && holds 2 8 buf))
