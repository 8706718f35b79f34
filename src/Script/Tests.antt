-- ===== src/Script/Tests.antt =====
-- A script with an argument, one of blanks alone, and an empty file
use iamroot.Base.{◌≡◌, refl, List, [], ◌∷◌, ◌++◌, Option, none, some, take}
use iamroot.Base.Bytes.{Bytes, codes}
use iamroot.Base.Errno.{reply}
use iamroot.Script.{
  Script, is_blank, is_word, byte_of, get, put, skip_blanks, copy_word, terminate, cut_word,
  cut_line, on_empty, on_content, on_read, on_size, on_opened, interpreter_script_hashbang, text_of,
  arguments, interpreter_script,
}
use iamroot.Script.Line.{words_of}
use iamroot.Script.Arguments.{interpreter_script-words_of}

-- #! /bin/sh -e
abbrev line : Bytes
line = codes " /bin/sh -e" ++ 10 ∷ codes "exit"

abbrev script : Bytes → Script
script content = record { opened = reply 3; st_size = reply 20; read = λ n. reply (take n content) }

abbrev empty : Script
empty = record { opened = reply 3; st_size = reply 0; read = λ n. reply [] }

abbrev memory : Bytes
memory = 1 ∷ 1 ∷ 1 ∷ 1 ∷ 1 ∷ 1 ∷ 1 ∷ 1 ∷ 1 ∷ 1 ∷ 1 ∷ 1 ∷ 1 ∷ 1 ∷ 1 ∷ 1 ∷ 1 ∷ 1 ∷ 1 ∷ 1 ∷ []

run : Script → Option (List Bytes)
unfolding interpreter_script interpreter_script_hashbang on_opened on_size on_read on_empty
    on_content cut_line cut_word terminate copy_word skip_blanks put get byte_of is_word is_blank
    arguments text_of
run f = interpreter_script f (codes "/a") 20 memory

runs : run (script (35 ∷ 33 ∷ line)) ≡ some (codes "/bin/sh" ∷ codes "-e" ∷ codes "/a" ∷ [])
unfolding run
runs = refl

wordless_line : run (script (35 ∷ 33 ∷ 32 ∷ 10 ∷ [])) ≡ none
unfolding run
wordless_line = refl

by_shell : run empty ≡ some (codes "/bin/sh" ∷ codes "/a" ∷ [])
unfolding run
by_shell = refl

interpreter_script-words_of_example :
    interpreter_script (script (35 ∷ 33 ∷ line)) (codes "/a") 20 memory ≡ words_of (codes "/a") line
interpreter_script-words_of_example =
    interpreter_script-words_of (script (35 ∷ 33 ∷ line)) (codes "/a") memory line 20 3 19 refl refl
      refl
