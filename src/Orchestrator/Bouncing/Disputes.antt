-- ===== src/Orchestrator/Bouncing/Disputes.antt =====
-- The reason that rule D8 of packages/orchestrator/src/derive.ts writes, read back by the pattern that
-- resets an artifact's bounces.
use text.Mathlib.TextLemmas.{append_assoc, cons-append, nil-append}
use Prim.Native.Char.{Char, code}
use gateline.Prelude.{◌==◌, ==_iff}
use Prim.Native.String.{◌++◌}
use gateline.Prelude.{
  ℕ, zero, suc, ◌/◌, ◌%◌, leb, ◌≡◌, refl, ◌∙◌, String, Bool, true, false, not, ◌&&◌, some, digit,
  decimal, decimal_from, is_space, is_blank, if_split, arith,
}
use gateline.Orchestrator.Derive.{dispute_reason}
use gateline.Orchestrator.Bouncing.{is_digit}
use gateline.Orchestrator.Bouncing.{split_word, drop_digits, strip_text, contract_dispute}

-- A path with no white space in it.
abbrev pub spaceless : String → Bool
spaceless String.[] = true
spaceless (String.◌∷◌ c s) = not (is_space c) && spaceless s

drop_digits-char :
    (b : Bool) (c : Char) (s : String)
    → is_digit c ≡ true
    → drop_digits b (String.◌∷◌ c String.[] ++ s) ≡ drop_digits true s
drop_digits-char b c s h = rw cons-append (rw h (rw nil-append refl))

drop_digits-digit :
    (b : Bool) (k : ℕ) (s : String) → drop_digits b (digit k ++ s) ≡ drop_digits true s
drop_digits-digit b zero s = drop_digits-char b _ s refl
drop_digits-digit b (suc zero) s = drop_digits-char b _ s refl
drop_digits-digit b (suc (suc zero)) s = drop_digits-char b _ s refl
drop_digits-digit b (suc (suc (suc zero))) s = drop_digits-char b _ s refl
drop_digits-digit b (suc (suc (suc (suc zero)))) s = drop_digits-char b _ s refl
drop_digits-digit b (suc (suc (suc (suc (suc zero))))) s = drop_digits-char b _ s refl
drop_digits-digit b (suc (suc (suc (suc (suc (suc zero)))))) s = drop_digits-char b _ s refl
drop_digits-digit b (suc (suc (suc (suc (suc (suc (suc zero))))))) s = drop_digits-char b _ s refl
drop_digits-digit b (suc (suc (suc (suc (suc (suc (suc (suc zero)))))))) s =
    drop_digits-char b _ s refl
drop_digits-digit b (suc (suc (suc (suc (suc (suc (suc (suc (suc n))))))))) s =
    drop_digits-char b _ s refl

drop_digits-decimal_from :
    (b : Bool) (f n : ℕ) (acc s : String)
    → drop_digits b (decimal_from (suc f) n acc ++ s) ≡ drop_digits true (acc ++ s)
unfolding decimal_from
drop_digits-decimal_from b zero n acc s =
    if_split (λ t. drop_digits b (t ++ s) ≡ drop_digits true (acc ++ s)) (leb n 9)
      (λ small. rw (append_assoc (digit n) acc s) (drop_digits-digit b n (acc ++ s)))
      (λ large. rw (append_assoc (digit (n % 10)) acc s) (drop_digits-digit b (n % 10) (acc ++ s)))
drop_digits-decimal_from b (suc f) n acc s =
    if_split (λ t. drop_digits b (t ++ s) ≡ drop_digits true (acc ++ s)) (leb n 9)
      (λ small. rw (append_assoc (digit n) acc s) (drop_digits-digit b n (acc ++ s)))
      (λ large.
        drop_digits-decimal_from b f (n / 10) (digit (n % 10) ++ acc) s
        ∙ rw (append_assoc (digit (n % 10)) acc s) (drop_digits-digit true (n % 10) (acc ++ s)))

split_word-spaceless :
    (w : String) (space : Char) (s : String)
    → is_space space ≡ true
    → spaceless w ≡ true
    → split_word (w ++ String.◌∷◌ space s) ≡ (w, String.◌∷◌ space s)
unfolding split_word
split_word-spaceless String.[] space s b h = rw nil-append (rw b refl)
split_word-spaceless (String.◌∷◌ c w) space s b h =
    let solid : is_space c ≡ false = ground arith in
    let rest : spaceless w ≡ true = ground arith in
    rw cons-append (rw (solid, split_word-spaceless w space s b rest) refl)

drop_digits-decimal :
    (n : ℕ) (s : String) → drop_digits true s ≡ some s → drop_digits false (decimal n ++ s) ≡ some s
unfolding decimal
drop_digits-decimal n s h = drop_digits-decimal_from false n n "" s ∙ rw nil-append h

strip_text-append : (p s : String) → strip_text p (p ++ s) ≡ some s
strip_text-append String.[] s = rw nil-append refl
strip_text-append (String.◌∷◌ c p) s =
    let same : (code c == code c) ≡ true = (==_iff (code c) (code c)).1 refl in
    rw cons-append (rw same (strip_text-append p s))

-- The reason that rule D8 escalates with, of an artifact whose path is not empty and has no white space,
-- is read back as a dispute about that artifact, whatever the number of bounces in it.
pub contract_dispute-dispute_reason :
    (artifact : String) (count : ℕ)
    → is_blank artifact ≡ false
    → spaceless artifact ≡ true
    → contract_dispute (dispute_reason artifact count) ≡ some artifact
unfolding contract_dispute dispute_reason is_space
contract_dispute-dispute_reason artifact count solid plain =
    let rest : String = "× and is still malformed — contract dispute, a human should look" ++ "" in
    let number : String = decimal count ++ rest in
    let word : split_word (artifact ++ (" bounced " ++ number))
        ≡ (artifact, " bounced " ++ number) =
      rw (cons-append " " "bounced " number)
        (split_word-spaceless artifact " " ("bounced " ++ number) refl plain) in
    let after_word : strip_text " bounced " (" bounced " ++ number) ≡ some number =
      strip_text-append " bounced " number in
    let digits : drop_digits false number ≡ some rest = drop_digits-decimal count rest refl in
    rw (contract_dispute, word, solid, after_word, digits) refl
