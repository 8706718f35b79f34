-- ===== src/Script.antt =====
-- interpreter-script.c: the interpreter of a script, which __interpreter_script_hashbang cuts out of
-- the buffer that it has read the first line into.
pub mod Copy
pub mod Cut
pub mod Line
pub mod Arguments
pub mod Tests
use iamroot.Base.{
  ℕ, zero, suc, ◌+◌, ◌-◌, Bool, true, false, not, ◌&&◌, ◌||◌, List, [], ◌∷◌, ◌++◌, Option, none,
  some, ◌==◌, ltb, leb, if◌then◌else◌, length, take, drop,
}
use iamroot.Base.Bytes.{Bytes, codes}
use iamroot.Base.Errno.{Reply, reply, refuse, enoexec}

-- isblank(c), in the C locale
unfoldable pub is_blank : ℕ → Bool
is_blank c = c == 32 || c == 9

-- *s && *s != '\n' && !isblank(*s)
unfoldable pub is_word : ℕ → Bool
is_word c = not (c == 0) && not (c == 10) && not (is_blank c)

-- The memory from &buf[offset] on: the byte at an index, and a write to it
unfoldable pub byte_of : Bytes → ℕ
byte_of [] = 0
byte_of (c ∷ m) = c

unfoldable pub get : Bytes → ℕ → ℕ
get m i = byte_of (drop i m)

unfoldable pub put : Bytes → ℕ → ℕ → Bytes
put [] i v = []
put (c ∷ m) zero v = v ∷ m
put (c ∷ m) (suc i) v = c ∷ put m i v

-- while (isblank(*s)) s++; of at most `fuel` rounds
unfoldable pub skip_blanks : ℕ → Bytes → ℕ → ℕ
skip_blanks zero m s = s
skip_blanks (suc fuel) m s =
    let rest = skip_blanks fuel m (s + 1) in if is_blank (get m s) then rest else s

-- The memory with the indices s and d
pub record Cursor : Type 0 where
  pub mem : Bytes
  pub s : ℕ
  pub d : ℕ

-- while (*s && *s != '\n' && !isblank(*s)) *d++ = *s++; of at most `fuel` rounds
unfoldable pub copy_word : ℕ → Cursor → Cursor
copy_word zero k = k
copy_word (suc fuel) k =
    let rest =
      copy_word fuel (record { mem = put k.mem k.d (get k.mem k.s); s = k.s + 1; d = k.d + 1 }) in
    if is_word (get k.mem k.s) then rest else k

-- *d++ = 0;
unfoldable pub terminate : Cursor → Cursor
terminate k = record k { mem = put k.mem k.d 0; d = k.d + 1 }

-- Skip the blanks, and copy a word
unfoldable pub cut_word : Cursor → Cursor
cut_word k =
    terminate (copy_word (length k.mem) (record k { s = skip_blanks (length k.mem) k.mem k.s }))

-- The part of __interpreter_script_hashbang that begins with s = buf+offset+2
unfoldable pub cut_line : Bytes → Cursor
cut_line m =
    let k = cut_word (record { mem = m; s = 2; d = 0 }) in
    if is_blank (get k.mem k.s) then cut_word k else k

-- How __interpreter_script_hashbang ends: with a length and the memory, with -1 and errno, or with a
-- write past the buffer
pub data Hashbang : Type 0 where
  found : ℕ → Bytes → Hashbang
  refused : ℕ → Hashbang
  overrun : Hashbang

-- _PATH_BSHELL
abbrev pub shell : Bytes
shell = codes "/bin/sh"

-- n = _snprintf(&buf[offset], bufsiz, "%s", _PATH_BSHELL), where the memory from there on may have
-- fewer than bufsiz bytes; if (n == -1), ret is 0.
unfoldable pub on_empty : ℕ → Bytes → Hashbang
on_empty zero m = found 0 m
on_empty (suc n) m =
    if ltb (length (take n shell)) (length m)
    then found (if ltb n 7 then 0 else 7) (take n shell ++ 0 ∷ drop (length (take n shell) + 1) m)
    else overrun

-- What follows read(fd, &buf[offset], bufsiz-offset-1) of these bytes
unfoldable pub on_content : Bytes → Bytes → Hashbang
on_content m content =
    if ltb (length content) 2 || not (get content 0 == 35) || not (get content 1 == 33)
    then refused enoexec
    else let k = cut_line (content ++ 0 ∷ drop (length content + 1) m) in found (k.d - 1) k.mem

-- A file: next_open, st_size of fstat, and read of a number of bytes
pub record Script : Type 0 where
  pub opened : Reply ℕ
  pub st_size : Reply ℕ
  pub read : ℕ → Reply Bytes

unfoldable pub on_read : Bytes → Reply Bytes → Hashbang
on_read m (reply content) = on_content m content
on_read m (refuse e) = refused e

unfoldable pub on_size : Script → ℕ → Bytes → Reply ℕ → Hashbang
on_size f bufsiz m (reply size) =
    if size == 0 then on_empty bufsiz m else on_read m (f.read (length m - 1))
on_size f bufsiz m (refuse e) = refused e

unfoldable pub on_opened : Script → ℕ → Bytes → Reply ℕ → Hashbang
on_opened f bufsiz m (reply fd) = on_size f bufsiz m f.st_size
on_opened f bufsiz m (refuse e) = refused e

-- __interpreter_script_hashbang(path, buf, bufsiz, offset), where the memory has bufsiz-offset bytes
unfoldable pub interpreter_script_hashbang : Script → ℕ → Bytes → Hashbang
interpreter_script_hashbang f bufsiz m = on_opened f bufsiz m f.opened

-- The string that begins at an index
unfoldable pub text_of : Bytes → Bytes
text_of [] = []
text_of (c ∷ m) = let rest = text_of m in if c == 0 then [] else c ∷ rest

-- What __interpreter_script leaves in interparg, or -1
unfoldable pub arguments : Bytes → Hashbang → Option (List Bytes)
arguments path (found siz m) =
    if ltb siz 1
    then none
    else let len = length (text_of m) in
      if ltb len siz && not (get m (len + 1) == 0)
      then some (text_of m ∷ text_of (drop (len + 1) m) ∷ path ∷ [])
      else some (text_of m ∷ path ∷ [])
arguments path (refused e) = none
arguments path overrun = none

-- __interpreter_script(path, argv, buf, bufsiz, offset, interparg)
unfoldable pub interpreter_script : Script → Bytes → ℕ → Bytes → Option (List Bytes)
interpreter_script f path bufsiz m = arguments path (interpreter_script_hashbang f bufsiz m)
