-- ===== src/Lock/Tests/Codec.antt =====
-- A spelling of the records of src/lock/store.ts in place of JSON: each text after its length.
use agent_pipeline_v.Base.{
  ℕ, zero, suc, ◌≡◌, refl, ap, ◌∙◌, Option, none, some, [], ◌∷◌, ◌++◌, Text, length,
}
use agent_pipeline_v.Lock.{LockRecord}

abbrev split : ℕ → Text → Option (Text × Text)
split zero s = some ([], s)
split (suc n) [] = none
split (suc n) (c ∷ s) = elim (split n s) [ none ↦ none | some p ↦ some (c ∷ p.0, p.1) ]

split-append : (s k : Text) → split (length s) (s ++ k) ≡ some (s, k)
split-append [] k = refl
split-append (c ∷ s) k = rw (split-append s k)

abbrev with_text : Text → Text → Text
with_text s k = length s ∷ (s ++ k)

abbrev text_then {ℓ} : {A : Type ℓ} → Text → (Text → Text → Option A) → Option A
text_then [] next = none
text_then (n ∷ s) next = elim (split n s) [ none ↦ none | some p ↦ next p.0 p.1 ]

abbrev pid_code : Option ℕ → ℕ
pid_code none = 0
pid_code (some p) = suc p

abbrev code_pid : ℕ → Option ℕ
code_pid zero = none
code_pid (suc p) = some p

abbrev pub print : LockRecord → Text
print r =
    r.acquired_at
    ∷ r.expires_at
    ∷ r.heartbeat_at
    ∷ r.ttl_seconds
    ∷ pid_code r.owner.pid
    ∷ with_text r.resource (
        with_text r.owner.host
          (with_text r.owner.label (with_text r.token (with_text r.purpose []))))

abbrev pub parse : Text → Option LockRecord
parse (a ∷ e ∷ h ∷ t ∷ p ∷ s) = text_then s (λ resource s1. text_then s1 (λ host s2.
    text_then s2 (λ label s3. text_then s3 (λ token s4. text_then s4 (λ purpose s5. some (record {
      resource = resource;
      owner = record { pid = code_pid p; host = host; label = label };
      token = token;
      acquired_at = a;
      expires_at = e;
      heartbeat_at = h;
      ttl_seconds = t;
      purpose = purpose;
    }))))))
parse _ = none

code_pid-pid_code : (p : Option ℕ) → code_pid (pid_code p) ≡ p
code_pid-pid_code none = refl
code_pid-pid_code (some p) = refl

text_then-with_text {ℓ} :
    {A : Type ℓ} (s k : Text) (next : Text → Text → Option A)
    → text_then (with_text s k) next ≡ next s k
text_then-with_text s k next = rw (split-append s k, text_then)

pub parse-print : (r : LockRecord) → parse (print r) ≡ some r
parse-print r =
    text_then-with_text r.resource _ _
    ∙ text_then-with_text r.owner.host _ _
    ∙ text_then-with_text r.owner.label _ _
    ∙ text_then-with_text r.token _ _
    ∙ text_then-with_text r.purpose _ _
    ∙ ap (λ p. some (record r { owner = record r.owner { pid = p } }))
        (code_pid-pid_code r.owner.pid)
