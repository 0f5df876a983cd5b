-- ===== src/Fs/File/Modes.antt =====
-- Which mode `fopen` of kernel/fs/file.cpp takes from its text.
use n00b_os.Prelude.{
  ℕ, ◌<◌, ◌≡◌, inl, inr, not, ◌==◌, if◌then◌else◌, ltb, [], ◌∷◌, sign_extend, slt, slt_small, arith,
  Bool-cases,
}
use n00b_os.Libc.Strings.{Str, strncmp}
use n00b_os.Libc.Strings.Compare.{view, strncmp_one}
use n00b_os.Fs.File.{file_mode_read, file_mode_append, file_mode_invalid, str_2_filemode}

sign_extend_ascii : (c : ℕ) → c < 128 → sign_extend c ≡ c
unfolding sign_extend
sign_extend_ascii c h = ground arith

starts :
    (str : Str) (d : ℕ)
    → 0 < str 0
    → str 0 < 128
    → 0 < d
    → d < 128
    → (strncmp str (view (d ∷ [])) 1 == 0) ≡ not (ltb (str 0) d)
starts str d h k hd kd =
    let same = strncmp_one str d (omega arith) in
    let below : slt (sign_extend (str 0)) (sign_extend d) ≡ ltb (str 0) d =
      rw (sign_extend_ascii (str 0) k, sign_extend_ascii d kd)
        (slt_small (str 0) d (omega arith) (omega arith)) in
    elim (Bool-cases (ltb (str 0) d)) [
      | inl lt ↦ grind (arith, same.0, lt, below)
      | inr ge ↦ grind (arith, same.1, ge, below)
    ]

-- A mode whose first character, an ASCII one, is 'r' or a later one opens for reading, so also "w"
-- does; one from 'a' to 'q' for appending, every other is invalid, and none opens for writing.
pub str_2_filemode_lem :
    (str : Str)
    → 0 < str 0
    → str 0 < 128
    → str_2_filemode str ≡ (
        if ltb (str 0) b'a'
        then file_mode_invalid
        else if ltb (str 0) b'r'
        then file_mode_append
        else file_mode_read)
unfolding str_2_filemode
str_2_filemode_lem str h k =
    rw
      (
        starts str b'r' h k (omega arith) (omega arith),
        starts str b'w' h k (omega arith) (omega arith),
        starts str b'a' h k (omega arith) (omega arith),
      )
      (ground arith)
