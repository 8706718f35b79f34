-- ===== src/Identity/Groups/Laws.antt =====
-- What getgroups reads of the groups that setgroups has stored.
use iamroot.Base.{
  ℕ, suc, ◌+◌, ◌-◌, ◌*◌, ◌%◌, ◌≤◌, ◌<◌, ◌≡◌, ◌∙◌, sym, ap, refl, true, false, not, ◌&&◌, List, [],
  ◌∷◌, ◌++◌, append_assoc, append-nil, map, some, ◌==◌, ltb, length, length-append, inl, inr,
  Bool-cases, take-all, arith,
}
use iamroot.Base.Bytes.{Bytes, codes, path_max}
use iamroot.Base.Errno.{reply}
use iamroot.Path.Text.{is_nil}
use iamroot.Env.{setenv, valid, has_equals}
use iamroot.Env.Laws.{getenv-setenv}
use iamroot.Identity.{or_zero}
use iamroot.Identity.Numbers.{
  print_unsigned, strtoul-print_unsigned, AllDigits, print_unsigned-AllDigits,
  length-print_unsigned, is_nil-print_unsigned,
}
use iamroot.Identity.Groups.{
  groups_variable, bufsiz, ngroups_max, separator, print_groups, store_groups, setgroups, goes_on,
  push, tokens, strtok, add_group, id_callback, iterate, go_on, getgroups,
}

-- The text of the groups from i on
joined : ℕ → List ℕ → Bytes
joined i [] = []
joined i (g ∷ list) = (separator i ++ print_unsigned g) ++ joined (suc i) list

length-separator : (i g : ℕ) → length (separator i ++ print_unsigned g) ≤ 11
length-separator i g =
    let h = length-print_unsigned g in
    elim (Bool-cases (ltb 0 i)) [ inl e ↦ rw e (omega arith) | inr e ↦ rw e (omega arith) ]

print_groups-joined :
    (i : ℕ) (buf : Bytes) (list : List ℕ)
    → length buf + 11 * length list < bufsiz
    → print_groups i buf list ≡ reply (buf ++ joined i list)
unfolding print_groups joined
print_groups-joined i buf [] h = ap reply (sym (append-nil buf))
print_groups-joined i buf (g ∷ list) h =
    let fits = length-separator i g in
    let longer = length-append buf (separator i ++ print_unsigned g) in
    let printed =
      print_groups-joined (suc i) (buf ++ (separator i ++ print_unsigned g)) list (omega arith) in
    rw (room fits (omega arith), printed)
      (ap reply (append_assoc buf (separator i ++ print_unsigned g) (joined (suc i) list)))
  where
    room :
        length (separator i ++ print_unsigned g) ≤ 11
        → length buf + 11 < bufsiz
        → ltb (length (separator i ++ print_unsigned g)) (bufsiz - length buf) ≡ true
    room h k = ground arith

digit : (c : ℕ) → 48 ≤ c → (c == 32) ≡ false
digit c h = ground arith

tokens-last :
    (c : ℕ) (rest : Bytes)
    → 48 ≤ c
    → goes_on 32 rest ≡ false
    → tokens 32 (c ∷ rest) ≡ (c ∷ []) ∷ tokens 32 rest
unfolding tokens
tokens-last c rest h k = rw (digit c h, k) refl

tokens-push :
    (c e : ℕ) (rest : Bytes)
    → 48 ≤ c
    → 48 ≤ e
    → tokens 32 (c ∷ e ∷ rest) ≡ push c (tokens 32 (e ∷ rest))
unfolding tokens
tokens-push c e rest h k = rw (digit c h, digit e k) refl

-- A token that ends where the text ends or where a blank follows
tokens-append :
    (w rest : Bytes)
    → is_nil w ≡ false
    → AllDigits w
    → goes_on 32 rest ≡ false
    → tokens 32 (w ++ rest) ≡ w ∷ tokens 32 rest
tokens-append [] rest n h k = ground arith
tokens-append (c ∷ []) rest n (d, h) k = tokens-last c rest d k
tokens-append (c ∷ e ∷ w) rest n (d, (f, h)) k =
    tokens-push c e (w ++ rest) d f ∙ ap (push c) (tokens-append (e ∷ w) rest refl (f, h) k)

separator-suc : (i : ℕ) → separator (suc i) ≡ codes " "
separator-suc i = let e : ltb 0 (suc i) ≡ true = ground arith in rw e refl

goes_on-joined : (i : ℕ) (list : List ℕ) → goes_on 32 (joined (suc i) list) ≡ false
unfolding joined
goes_on-joined i [] = refl
goes_on-joined i (g ∷ list) = rw (separator-suc i) refl

tokens-print :
    (i g : ℕ) (list : List ℕ)
    → tokens 32 (print_unsigned g ++ joined (suc i) list)
      ≡ print_unsigned g ∷ tokens 32 (joined (suc i) list)
tokens-print i g list =
    tokens-append (print_unsigned g) (joined (suc i) list) (is_nil-print_unsigned g)
      (print_unsigned-AllDigits g) (goes_on-joined i list)

tokens-joined : (i : ℕ) (list : List ℕ) → tokens 32 (joined (suc i) list) ≡ map print_unsigned list
unfolding joined tokens
tokens-joined i [] = refl
tokens-joined i (g ∷ list) =
    rw (separator-suc i)
      (tokens-print (suc i) g list ∙ ap (λ l. print_unsigned g ∷ l) (tokens-joined (suc i) list))

tokens-groups : (list : List ℕ) → tokens 32 (joined 0 list) ≡ map print_unsigned list
unfolding joined tokens
tokens-groups [] = refl
tokens-groups (g ∷ list) =
    tokens-print 0 g list ∙ ap (λ l. print_unsigned g ∷ l) (tokens-joined 0 list)

-- Each number is a gid_t.
abbrev pub AllGid : List ℕ → Type 0
AllGid [] = Unit
AllGid (g ∷ list) = (g < 4294967296) × AllGid list

id_callback-print :
    (g n size : ℕ) (list : List ℕ)
    → g < 4294967296
    → size < n
    → id_callback (print_unsigned g) (record { listsize = n; list = some list; size = size })
      ≡ reply (record { listsize = n; list = some (list ++ g ∷ []); size = size + 1 })
unfolding id_callback add_group
id_callback-print g n size list h k =
    let e : ltb size n ≡ true = ground arith in
    let f : ltb 0 n ≡ true = ground arith in
    let m : g % 4294967296 ≡ g = omega arith in rw (strtoul-print_unsigned g h, e, f, m) refl

iterate-map :
    (more : List ℕ) (n size : ℕ) (list : List ℕ)
    → AllGid more
    → size + length more ≤ n
    → iterate (map print_unsigned more) (record { listsize = n; list = some list; size = size })
      ≡ reply (record { listsize = n; list = some (list ++ more); size = size + length more })
unfolding iterate go_on
iterate-map [] n size list h k =
    let e : size ≡ size + 0 = omega arith in
    let l = sym (append-nil list) in
    λ i. reply (record { listsize = n; list = some (l i); size = e i })
iterate-map (g ∷ more) n size list (b, h) k =
    let e : size + 1 + length more ≡ size + suc (length more) = omega arith in
    rw (id_callback-print g n size list b (omega arith)) (
      iterate-map more n (size + 1) (list ++ g ∷ []) h (omega arith) ∙ λ i.
      reply (record { listsize = n; list = some (append_assoc list (g ∷ []) more i); size = e i }))

length-joined : (i : ℕ) (list : List ℕ) → length (joined i list) ≤ 11 * length list
unfolding joined
length-joined i [] = omega arith
length-joined i (g ∷ list) = omega (
  arith,
  length-append (separator i ++ print_unsigned g) (joined (suc i) list),
  length-separator i g,
  length-joined (suc i) list,
)

-- The text of at most 372 groups is shorter than PATH_MAX, and is read whole.
strtok-joined :
    (list : List ℕ) → length list ≤ 372 → strtok 32 (joined 0 list) ≡ map print_unsigned list
unfolding strtok
strtok-joined list h =
    ap (tokens 32) (take-all path_max (joined 0 list) (omega (arith, length-joined 0 list)))
    ∙ tokens-groups list

setgroups-joined :
    (g : ℕ) (list env : _)
    → length (g ∷ list) ≤ 372
    → (new : List Bytes) × (setgroups (g ∷ list) env ≡ reply new)
      × (setenv groups_variable (joined 0 (g ∷ list)) true env ≡ reply new)
unfolding setgroups store_groups setenv valid has_equals
setgroups-joined g list env h =
    let e : ltb ngroups_max (length (g ∷ list)) ≡ false = ground arith in
    let p = print_groups-joined 0 [] (g ∷ list) (omega arith) in (_, rw (e, p) refl, refl)

-- The groups of a list of 1 to 372 numbers are stored without an error, and a program that has room
-- for them in its own list then reads these groups, in their order, and how many they are.
pub getgroups-setgroups :
    (list : List ℕ) (n : ℕ) (env : List Bytes)
    → 0 < length list
    → length list ≤ 372
    → AllGid list
    → length list ≤ n
    → (new : List Bytes) × (setgroups list env ≡ reply new)
      × (getgroups n (some []) new
          ≡ reply (record { listsize = n; list = some list; size = length list }))
unfolding getgroups or_zero
getgroups-setgroups [] n env p h b k = absurd (omega arith)
getgroups-setgroups (g ∷ list) n env p h b k =
    let (new, stored, set) = setgroups-joined g list env h in
    let read =
      (getenv-setenv groups_variable (joined 0 (g ∷ list)) groups_variable env new set).0 in
    let e : 0 + suc (length list) ≡ suc (length list) = omega arith in
    let listed : (not (n == 0) && false) ≡ false = ground arith in
    (
      new,
      stored,
      rw (listed, read, strtok-joined (g ∷ list) h)
          (iterate-map (g ∷ list) n 0 [] b (omega arith) ∙ λ i.
            reply (record { listsize = n; list = some (g ∷ list); size = e i })),
    )
