-- ===== src/Db/Tokenizer/Sound/Passes.antt =====
-- src/db/tokenizer.ts: one pass of the loop of `tokenize`, from the kinds of token.
use agent_pipeline_v.Base.{
  ℕ, suc, ◌≡◌, refl, ap, sym, subst, true, ◌&&◌, ◌||◌, Option, none, some, [], ◌∷◌, arith, Text,
  is_space, is_empty, ok, err, length, inl, inr, ◌==◌, if_both, if_cases,
}
use agent_pipeline_v.Db.Tokenizer.Scan.{
  is_digit, head_is, first, drop, span, quoted, escaped, comment, dollar_tag, up_to_mark,
}
use agent_pipeline_v.Db.Tokenizer.Token.{
  word, qident, string, open_string, open_identifier, Unicode, Passed, comment_pass, escaped_pass,
  string_pass, identifier_pass, space_pass, dash_pass, skipped_pass, body_pass, parameter,
  dollar_pass, pass, dollar_case,
}
use agent_pipeline_v.Db.Tokenizer.Shapes.{newlines, Doubled, Escaped}
use agent_pipeline_v.Db.Tokenizer.Comments.{comment-Skips}
use agent_pipeline_v.Db.Tokenizer.Pieces.{
  span-IsPrefix, first-IsPrefix, quoted-Parts, escaped-Parts, up_to_mark-Around, Finds,
  dollar_tag-Finds,
}
use agent_pipeline_v.Db.Tokenizer.Sound.{
  IsUnicode, opens_gap, Sound, space_pass-Sound, dash_pass-Sound, skipped_pass-Sound,
  quoted_pass-Sound, take_token-Sound, closed_pass-Sound,
}
use agent_pipeline_v.Db.Tokenizer.Sound.Tokens.{plain_pass-Sound, newlines-digits}

body_pass-Sound :
    (mark : Text) (line : ℕ) (s : Text) → Finds s (some mark) → Sound line s (body_pass mark line s)
unfolding body_pass
body_pass-Sound mark line s (m, h) =
    let after = drop (length mark) s in
    closed_pass-Sound mark line s (up_to_mark mark after) m h (up_to_mark-Around mark after)

parameter-Finds : (s : Text) → Finds (b'$' ∷ s) (parameter s)
unfolding parameter drop
parameter-Finds s =
    let digits = span is_digit (first 11 s) in
    if_both (Finds (b'$' ∷ s)) (is_empty digits) tt (
      omega arith,
      ap (λ r. b'$' ∷ r) (first-IsPrefix 11 digits s (span-IsPrefix is_digit (first 11 s))),
    )

-- No line feed in the text found.
abbrev OnLine : Option Text → Type 0
OnLine none = Unit
OnLine (some t) = newlines t ≡ 0

parameter-OnLine : (s : Text) → OnLine (parameter s)
unfolding parameter
parameter-OnLine s =
    let digits = span is_digit (first 11 s) in
    if_both OnLine (is_empty digits) tt (ground (arith, newlines-digits (first 11 s)))

dollar_case-Sound :
    (u : Unicode) (line : ℕ) (s : Text) (mark text : Option Text)
    → IsUnicode u
    → Finds (b'$' ∷ s) mark
    → Finds (b'$' ∷ s) text
    → OnLine text
    → Sound line (b'$' ∷ s) (dollar_case u line b'$' s mark text)
dollar_case-Sound u line s (some mark) text i f g n = body_pass-Sound mark line (b'$' ∷ s) f
dollar_case-Sound u line s none (some text) i f g n =
    take_token-Sound word text text line (b'$' ∷ s) g.1 n g.0
dollar_case-Sound u line s none none i f g n = plain_pass-Sound u line b'$' s i refl

-- A slice has the text found where the text sliced has it.
found_in_slice :
    (n : ℕ) (s : Text) (o : Option Text) → Finds (b'$' ∷ first n s) o → Finds (b'$' ∷ s) o
unfolding first
found_in_slice n s none f = tt
found_in_slice n s (some t) (m, h) = (m, first-IsPrefix (suc n) t (b'$' ∷ s) h)

dollar_pass-Sound :
    (u : Unicode) (line : ℕ) (s : Text)
    → IsUnicode u
    → Sound line (b'$' ∷ s) (dollar_pass u line b'$' s)
unfolding dollar_pass
dollar_pass-Sound u line s i =
    dollar_case-Sound u line s (dollar_tag (first 63 s)) (parameter s) i
      (found_in_slice 63 s (dollar_tag (first 63 s)) (dollar_tag-Finds (first 63 s)))
      (parameter-Finds s) (parameter-OnLine s)

-- Where a quote follows, the head of the text is that quote.
escaped_pass-Sound :
    (line c : ℕ) (s : Text)
    → c == b'E' || c == b'e' ≡ true
    → head_is b'\'' s ≡ true
    → Sound line (c ∷ s) (escaped_pass line c s)
unfolding escaped_pass drop
escaped_pass-Sound line c [] g h = ground arith
escaped_pass-Sound line c (d ∷ s) g h =
    let quote : d ≡ b'\'' = ground arith in
    subst (λ x. Sound line (c ∷ x ∷ s) (escaped_pass line c (x ∷ s))) (sym quote)
      (quoted_pass-Sound Escaped string (open_string line) c (b'\'' ∷ []) line s (escaped s) refl
        (λ k. (s, inr (c, refl, g, k))) (escaped-Parts s))

line_feed_is_space : (c : ℕ) → (c == b'\n') ≡ true → is_space c ≡ true
unfolding is_space
line_feed_is_space c h = ground arith

at_dollar : (c : ℕ) → (c == b'$') ≡ true → c ≡ b'$'
at_dollar c h = ground arith

pub pass-Sound :
    (u : Unicode) (line c : ℕ) (s : Text) → IsUnicode u → Sound line (c ∷ s) (pass u line c s)
unfolding pass comment_pass string_pass identifier_pass
pass-Sound u line c s i =
    let P = Sound line (c ∷ s) in
    let at : (d : ℕ) (r : Passed) → c ≡ d → Sound line (d ∷ s) r → P r =
      λ d r e k. subst (λ x. Sound line (x ∷ s) r) (sym e) k in
    if_cases P (c == b'\n')
      (λ h. space_pass-Sound line (suc line) c s (line_feed_is_space c h) (ground arith))
      (λ n.
        if_cases P (is_space c) (λ g. space_pass-Sound line line c s g (ground arith))
          (λ n1.
            if_cases P (c == b'-' && head_is b'-' s) (λ h. dash_pass-Sound line c s (ground arith))
              (λ n2.
                if_cases P (c == b'/' && head_is b'*' s)
                  (λ h.
                    skipped_pass-Sound line (c ∷ s) (comment 0 line (c ∷ s))
                      (comment-Skips line c s (ground arith)))
                  (λ n3.
                    if_cases P ((c == b'E' || c == b'e') && head_is b'\'' s)
                      (λ h. escaped_pass-Sound line c s (ground arith) (ground arith))
                      (λ n4.
                        if_cases P (c == b'\'')
                          (λ h. at b'\'' (string_pass line s) (ground arith) (
                            quoted_pass-Sound (Doubled b'\'') string (open_string line) b'\'' []
                              line s (quoted b'\'' s) refl (λ k. (s, inl (refl, k)))
                              (quoted-Parts b'\'' s)))
                          (λ n5.
                            if_cases P (c == b'"')
                              (λ h. at b'"' (identifier_pass line s) (ground arith) (
                                quoted_pass-Sound (Doubled b'"') qident (open_identifier line) b'"'
                                  [] line s (quoted b'"' s) refl (λ k. (s, refl, k))
                                  (quoted-Parts b'"' s)))
                              (λ n6.
                                if_cases P (c == b'$')
                                  (λ h.
                                    subst (λ x. Sound line (x ∷ s) (dollar_pass u line x s))
                                      (sym (at_dollar c h)) (dollar_pass-Sound u line s i))
                                  (λ n7. plain_pass-Sound u line c s i n))))))))

-- A pass at white space or at a comment pushes nothing.
abbrev pub PushesNone : Passed → Type 0
PushesNone (ok p) = p.pushed ≡ none
PushesNone (err e) = Unit

skipped_pass-PushesNone : (line : ℕ) (o : Option (ℕ × Text)) → PushesNone (skipped_pass line o)
skipped_pass-PushesNone line none = tt
skipped_pass-PushesNone line (some p) = refl

pub pass-PushesNone :
    (u : Unicode) (line c : ℕ) (s : Text) → opens_gap (c ∷ s) ≡ true → PushesNone (pass u line c s)
unfolding pass comment_pass space_pass dash_pass
pass-PushesNone u line c s g = if_both PushesNone (c == b'\n') refl (
    if_cases PushesNone (is_space c) (λ h. refl)
      (λ n1.
        if_cases PushesNone (c == b'-' && head_is b'-' s) (λ h. refl)
          (λ n2.
            if_cases PushesNone (c == b'/' && head_is b'*' s)
              (λ h. skipped_pass-PushesNone line (comment 0 line (c ∷ s)))
              (λ n3. absurd (ground arith)))))
