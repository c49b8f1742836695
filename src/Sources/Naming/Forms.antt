-- ===== src/Sources/Naming/Forms.antt =====
-- The forms of one origin, of parseOriginUrl in packages/core/src/sources/repository-id.ts.
use Prim.Native.Char.{Char, code}
use Prim.Native.String.{◌++◌ as append}
use text.Mathlib.TextLemmas.{nil-append, cons-append}
use gateline.Prelude.{
  ℕ, String, true, false, ◌||◌, none, some, [], ◌∷◌, ◌==◌, leb, ◌≡◌, refl, is_blank, is_space,
  arith, sym, ap, ◌∙◌, trim, trim_start, trim_end,
}
use gateline.Sources.Naming.{
  lower_char, repository_id_key, all_chars, any_char, split_first, after_last, is_code, split_slash,
}
use gateline.Sources.Naming.Origin.{
  read_origin, before_colon, is_drive, after_codes, parse_origin_url, scheme_of, parse_scp,
  parse_schemed, host_of, origin_of,
}
use gateline.Sources.Naming.Rules.{is_name_char}
use gateline.Sources.Naming.Usable.{and_true, name_char-slash}

-- A name holds no other character than those of a name.
other_code : (k : ℕ) (c : Char) → leb k 44 ≡ true → is_name_char c ≡ true → (code c == k) ≡ false
other_code k c l h = ground arith

name_char-colon : (c : Char) → is_name_char c ≡ true → (code c == b':') ≡ false
name_char-colon c h = ground arith

name_char-at : (c : Char) → is_name_char c ≡ true → (code c == b'@') ≡ false
name_char-at c h = ground arith

abbrev Absent : ℕ → Type 0
Absent k = (c : Char) → is_name_char c ≡ true → (code c == k) ≡ false

same_code : (k : ℕ) → (k == k) ≡ true
same_code k = ground arith

-- After a name, the first mark is the one that follows it.
split_first-name :
    (m : Char)
    → Absent (code m)
    → (h p : String) → all_chars is_name_char h ≡ true
    → split_first (code m) (append h (String.◌∷◌ m p)) ≡ some (h, p)
split_first-name m f String.[] p e = rw (nil-append, same_code (code m)) refl
split_first-name m f (String.◌∷◌ c s) p e =
    let (a, k) = and_true (is_name_char c) (all_chars is_name_char s) e in
    rw (cons-append, f c a, split_first-name m f s p k) refl

after_last-name :
    (h : String) → all_chars is_name_char h ≡ true → after_last (is_code b'@') h ≡ none
after_last-name String.[] e = refl
after_last-name (String.◌∷◌ c s) e =
    let (a, k) = and_true (is_name_char c) (all_chars is_name_char s) e in
    rw (after_last-name s k, name_char-at c a) refl

any_slash-name : (h : String) → all_chars is_name_char h ≡ true → any_char (is_code b'/') h ≡ false
any_slash-name String.[] e = refl
any_slash-name (String.◌∷◌ c s) e =
    let (a, k) = and_true (is_name_char c) (all_chars is_name_char s) e in
    rw (name_char-slash c a) (any_slash-name s k)

is_blank-append : (s p : String) → is_blank p ≡ false → is_blank (append s p) ≡ false
is_blank-append String.[] p e = rw nil-append e
is_blank-append (String.◌∷◌ c s) p e = rw cons-append refl

-- The end of a trimmed text stays trimmed behind another.
trim_end-append :
    (s p : String) → is_blank p ≡ false → trim_end p ≡ p → trim_end (append s p) ≡ append s p
unfolding trim_end
trim_end-append String.[] p e t = rw nil-append t
trim_end-append (String.◌∷◌ c s) p e t =
    rw (cons-append, trim_end-append s p e t, is_blank-append s p e) refl

name_char-bracket : (c : Char) → is_name_char c ≡ true → (code c == b'[') ≡ false
name_char-bracket c h = ground arith

no_bracket : (h : String) → all_chars is_name_char h ≡ true → after_codes (b'[' ∷ []) h ≡ none
no_bracket String.[] e = refl
no_bracket (String.◌∷◌ c s) e =
    let (a, k) = and_true (is_name_char c) (all_chars is_name_char s) e in
    rw (name_char-bracket c a) refl

no_colon : (h : String) → all_chars is_name_char h ≡ true → split_first b':' h ≡ none
no_colon String.[] e = refl
no_colon (String.◌∷◌ c s) e =
    let (a, k) = and_true (is_name_char c) (all_chars is_name_char s) e in
    rw (name_char-colon c a, no_colon s k) refl

git_text :
    (z : String)
    → append "git@" z ≡ String.◌∷◌ "g" (String.◌∷◌ "i" (String.◌∷◌ "t" (String.◌∷◌ "@" z)))
git_text z = rw (cons-append, cons-append, cons-append, cons-append, nil-append) refl

https_text :
    (z : String)
    → append "https://" z
      ≡ String.◌∷◌ "h" (
          String.◌∷◌ "t" (
            String.◌∷◌ "t" (
              String.◌∷◌ "p"
                (String.◌∷◌ "s" (String.◌∷◌ ":" (String.◌∷◌ "/" (String.◌∷◌ "/" z)))))))
https_text z =
    rw
      (
        cons-append, cons-append, cons-append, cons-append, cons-append, cons-append, cons-append,
        cons-append, nil-append,
      )
      refl

mark_text : (m : Char) (p : String) → append (String.◌∷◌ m "") p ≡ String.◌∷◌ m p
mark_text m p = rw (cons-append, nil-append) refl

before_colon-name : (h : String) → all_chars is_name_char h ≡ true → before_colon h ≡ h
before_colon-name h e = rw (before_colon, no_colon h e) refl

host_of-name : (h : String) → all_chars is_name_char h ≡ true → host_of h ≡ repository_id_key h
unfolding host_of
host_of-name h e = rw (after_last-name h e, no_bracket h e, before_colon-name h e) refl

host_of-user :
    (h : String) → all_chars is_name_char h ≡ true → host_of (append "git@" h) ≡ repository_id_key h
unfolding host_of
host_of-user h e = rw (git_text h, after_last-name h e, no_bracket h e, before_colon-name h e) refl

origin_of-slash : (a p : String) → origin_of a (append "/" p) ≡ origin_of a p
unfolding origin_of split_slash
origin_of-slash a p = rw (cons-append, nil-append) refl

origin_of-user :
    (h p : String) → all_chars is_name_char h ≡ true → origin_of (append "git@" h) p ≡ origin_of h p
unfolding origin_of
origin_of-user h p e = rw (host_of-user h e, host_of-name h e) refl

raw_of :
    (raw : String)
    → is_blank raw ≡ false
    → read_origin raw ≡ elim (scheme_of raw) [ none ↦ parse_scp raw | some q ↦ parse_schemed q ]
raw_of raw b = rw b refl

parse_of :
    (raw : String)
    → trim raw ≡ raw
    → is_blank raw ≡ false
    → parse_origin_url (some raw)
      ≡ elim (scheme_of raw) [ none ↦ parse_scp raw | some q ↦ parse_schemed q ]
unfolding parse_origin_url
parse_of raw t b = ap read_origin t ∙ raw_of raw b

-- What follows a host and a mark ends as the path does.
tail_trimmed :
    (h m p : String)
    → is_blank p ≡ false
    → trim_end p ≡ p
    → (is_blank (append h (append m p)) ≡ false)
      × (trim_end (append h (append m p)) ≡ append h (append m p))
tail_trimmed h m p b t =
    let filled = is_blank-append m p b in
    (
      is_blank-append h (append m p) filled,
      trim_end-append h (append m p) filled (trim_end-append m p b t),
    )

scp_split :
    (h p : String)
    → all_chars is_name_char h ≡ true
    → split_first b':' (append "git@" (append h (append ":" p))) ≡ some (append "git@" h, p)
scp_split h p e =
    rw
      (
        mark_text ":" p,
        git_text (append h (String.◌∷◌ ":" p)),
        git_text h,
        split_first-name ":" name_char-colon h p e,
      )
      refl

parse_scp-split :
    (raw a p : String)
    → split_first b':' raw ≡ some (a, p)
    → (is_blank a || any_char (is_code b'/') a) ≡ false
    → is_drive a p ≡ false
    → parse_scp raw ≡ origin_of a p
unfolding parse_scp
parse_scp-split raw a p e f g = rw (parse_scp, e, f, g) refl

user_plain :
    (h : String)
    → all_chars is_name_char h ≡ true
    → (is_blank (append "git@" h) || any_char (is_code b'/') (append "git@" h)) ≡ false
user_plain h e = rw (git_text h) (any_slash-name h e)

user_no_drive : (h p : String) → is_drive (append "git@" h) p ≡ false
user_no_drive h p = rw (git_text h) refl

parse_scp-origin :
    (h p : String)
    → all_chars is_name_char h ≡ true
    → parse_scp (append "git@" (append h (append ":" p))) ≡ origin_of h p
parse_scp-origin h p e =
    parse_scp-split _ _ _ (scp_split h p e) (user_plain h e) (user_no_drive h p)
    ∙ origin_of-user h p e

parse_schemed-origin :
    (h p : String)
    → all_chars is_name_char h ≡ true
    → parse_schemed ("https", append h (append "/" p)) ≡ origin_of h p
unfolding parse_schemed repository_id_key lower_char
parse_schemed-origin h p e =
    rw (mark_text "/" p, split_first-name "/" name_char-slash h p e) (origin_of-slash h p)

trim_start-git : (z : String) → trim_start (append "git@" z) ≡ append "git@" z
unfolding trim_start is_space
trim_start-git z = rw (git_text z) refl

trim_start-https : (z : String) → trim_start (append "https://" z) ≡ append "https://" z
unfolding trim_start is_space
trim_start-https z = rw (https_text z) refl

trim-kept :
    (s z : String)
    → trim_start (append s z) ≡ append s z
    → is_blank z ≡ false
    → trim_end z ≡ z
    → trim (append s z) ≡ append s z
unfolding trim
trim-kept s z k b t = ap trim_end k ∙ trim_end-append s z b t

scheme_of-git : (z : String) → scheme_of (append "git@" z) ≡ none
scheme_of-git z = rw (git_text z) refl

scheme_of-https : (z : String) → scheme_of (append "https://" z) ≡ some ("https", z)
scheme_of-https z = rw (https_text z) refl

parse-scp_form :
    (h p : String)
    → all_chars is_name_char h ≡ true
    → is_blank p ≡ false
    → trim_end p ≡ p
    → parse_origin_url (some (append "git@" (append h (append ":" p)))) ≡ origin_of h p
parse-scp_form h p e b t =
    let (filled, trimmed) = tail_trimmed h ":" p b t in
    let z = append h (append ":" p) in
    parse_of _ (trim-kept "git@" z (trim_start-git z) filled trimmed) (is_blank-append _ _ filled)
    ∙ rw (scheme_of-git z) (parse_scp-origin h p e)

parse-https_form :
    (h p : String)
    → all_chars is_name_char h ≡ true
    → is_blank p ≡ false
    → trim_end p ≡ p
    → parse_origin_url (some (append "https://" (append h (append "/" p)))) ≡ origin_of h p
parse-https_form h p e b t =
    let (filled, trimmed) = tail_trimmed h "/" p b t in
    let z = append h (append "/" p) in
    parse_of _ (trim-kept "https://" z (trim_start-https z) filled trimmed)
      (is_blank-append _ _ filled)
    ∙ rw (scheme_of-https z) (parse_schemed-origin h p e)

-- The scp-like form and the HTTPS form of a host and a path are read as one origin, for a host written in
-- letters, digits, `.`, `_` and `-`, and a path that is not empty and does not end in white space.
pub parse_origin_url-forms :
    (h p : String)
    → all_chars is_name_char h ≡ true
    → is_blank p ≡ false
    → trim_end p ≡ p
    → parse_origin_url (some (append "git@" (append h (append ":" p))))
      ≡ parse_origin_url (some (append "https://" (append h (append "/" p))))
parse_origin_url-forms h p e b t = parse-scp_form h p e b t ∙ sym (parse-https_form h p e b t)
