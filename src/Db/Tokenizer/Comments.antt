-- ===== src/Db/Tokenizer/Comments.antt =====
-- src/db/tokenizer.ts: the loop of a comment goes over what a comment is, and fails where it has no end.
use agent_pipeline_v.Base.{
  ℕ, zero, suc, ◌+◌, ◌-◌, ◌≡◌, ◌≤◌, refl, ap, subst, ◌∙◌, Bool, true, false, ◌&&◌, ◌||◌, Option,
  none, some, [], ◌∷◌, ◌++◌, arith, Text, length, if_cases, ◌==◌, if◌then◌else◌,
}
use agent_pipeline_v.Db.Tokenizer.Scan.{comment}
use agent_pipeline_v.Db.Tokenizer.Shapes.{
  newlines, Comment, last, cut, enters, leaves, opens_comment, closes_comment,
}
use agent_pipeline_v.Db.Tokenizer.Pieces.{newlines-append, append_assoc}

-- A comment from `line`, at a place inside n comments: its text and the line after it.
pub record Skipped (n line : ℕ) (s : Text) (p : ℕ × Text) : Type 0 where
  pub text : Text
  pub parts : s ≡ text ++ p.1
  pub lines : p.0 ≡ line + newlines text
  pub shape : Comment true n text

abbrev pub Skips : ℕ → ℕ → Text → Option (ℕ × Text) → Type 0
Skips n line s none = Comment false n s
Skips n line s (some p) = Skipped n line s p

skip :
    (n m line from : ℕ) (t s : Text) (o : Option (ℕ × Text))
    → from ≡ line + newlines t
    → ((r : Text) → Comment true m r → (e : Text) → s ≡ r ++ e → Comment true n (t ++ r))
    → (Comment false m s → Comment false n (t ++ s))
    → Skips m from s o
    → Skips n line (t ++ s) o
skip n m line from t s none e k g h = g h
skip n m line from t s (some p) e k g h = record {
  text = t ++ h.text;
  parts = ap (λ r. t ++ r) h.parts ∙ append_assoc t h.text p.1;
  lines = ground (arith, h.lines, newlines-append t h.text);
  shape = k h.text h.shape p.1 h.parts;
}

-- The two units that open or close a comment are the same before the rest of the text.
marks-append :
    (n c : ℕ) (s r e : Text)
    → Comment true (suc n) r
    → s ≡ r ++ e
    → opens_comment c s || closes_comment c s ≡ false
    → opens_comment c r || closes_comment c r ≡ false
marks-append n c s [] e (cut h) k m = absurd (ground arith)
marks-append n c s (a ∷ r) e h k m =
    subst (λ x. opens_comment c x || closes_comment c x ≡ false) k m

enter :
    (n line c d : ℕ) (s : Text) (o : Option (ℕ × Text))
    → opens_comment c (d ∷ s) ≡ true
    → Skips (suc n) line s o
    → Skips n line (c ∷ d ∷ s) o
enter n line c d s o h k =
    skip n (suc n) line line (c ∷ d ∷ []) s o (ground arith) (λ r m e q. enters h m)
      (λ m. enters h m) k

leave :
    (n line c d : ℕ) (s : Text)
    → closes_comment c (d ∷ s) ≡ true
    → ((m : ℕ) → Skips (suc m) line s (comment (suc m) line s))
    → Skips (suc n) line (c ∷ d ∷ s) (if n == 0 then some (line, s) else comment n line s)
leave zero line c d s h k = record {
  text = c ∷ d ∷ [];
  parts = refl;
  lines = ground arith;
  shape = last refl h;
}
leave (suc n) line c d s h k =
    if_cases (Skips (suc (suc n)) line (c ∷ d ∷ s)) (suc n == 0) (λ h. absurd (ground arith))
      (λ i.
        skip (suc (suc n)) (suc n) line line (c ∷ d ∷ []) s (comment (suc n) line s) (ground arith)
          (λ r m e q. leaves h m) (λ m. leaves h m) (k n))

-- Inside a comment.
comment-inside : (n line : ℕ) (s : Text) → Skips (suc n) line s (comment (suc n) line s)
unfolding comment
comment-inside n line [] =
    if_cases (Skips (suc n) line []) (suc n == 0) (λ h. absurd (ground arith)) (λ h. cut refl)
comment-inside n line (c ∷ []) =
    if_cases (Skips (suc n) line (c ∷ [])) (suc n == 0) (λ h. absurd (ground arith))
      (λ h. Comment.other (ground arith) (cut refl))
comment-inside n line (c ∷ d ∷ s) =
    let P = Skips (suc n) line (c ∷ d ∷ s) in
    if_cases P (c == b'/' && d == b'*')
      (λ h.
        enter (suc n) line c d s (comment (suc (suc n)) line s) h (comment-inside (suc n) line s))
      (λ m.
        if_cases P (c == b'*' && d == b'/')
          (λ h.
            let down : suc n - 1 ≡ n = omega arith in
            rw down (leave n line c d s h (λ j. comment-inside j line s)))
          (λ k.
            let from = if c == b'\n' then suc line else line in
            skip (suc n) (suc n) line from (c ∷ []) (d ∷ s) (comment (suc n) from (d ∷ s))
              (ground arith)
              (λ r i e q. Comment.other (marks-append n c (d ∷ s) r e i q (ground arith)) i)
              (λ i. Comment.other (ground arith) i) (comment-inside n from (d ∷ s))))

pub comment-Skips :
    (line c : ℕ) (s : Text)
    → opens_comment c s ≡ true
    → Skips 0 line (c ∷ s) (comment 0 line (c ∷ s))
unfolding comment
comment-Skips line c [] h = absurd (ground arith)
comment-Skips line c (d ∷ s) h =
    if_cases (Skips 0 line (c ∷ d ∷ s)) (c == b'/' && d == b'*')
      (λ k. enter 0 line c d s (comment 1 line s) k (comment-inside 0 line s))
      (λ n. absurd (ground arith))

pub Comment-moves : {whole : Bool} {s : Text} → Comment whole 0 s → 1 ≤ length s
Comment-moves (enters h k) = omega arith
