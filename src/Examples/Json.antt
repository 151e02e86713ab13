-- ===== src/Examples/Json.antt =====
-- A concrete codec for KeyMetadata (internal/lifecycle/manager.go), to run the key manager with:
-- every field as it stands, a text behind its length.
use yvonne.Base.{
  ℕ, zero, suc, Str, List, [], ◌∷◌, ◌++◌, Option, none, some, ◌≡◌, ◌≢◌, refl, ap, sym, ◌∙◌, length,
  take, drop, take-append_length, drop-append_length,
}
use mathlib.Core.List.{append_assoc, append-nil}
use yvonne.Lifecycle.Metadata.{
  KeyState, active, deactivated, soft_deleted, destroyed, unknown, KeyMetadata, Codec,
}

pub record Pickle (A : Type 0) : Type 0 where
  pub write : A → Str
  pub read : Str → Option (A × Str)
  pub read_write : (a : A) (rest : Str) → read (write a ++ rest) ≡ some (a, rest)

abbrev read_number : Str → Option (ℕ × Str)
read_number [] = none
read_number (n ∷ rest) = some (n, rest)

abbrev pub numbers : Pickle ℕ
numbers = record { write = λ n. n ∷ []; read = read_number; read_write = λ n rest. refl }

abbrev read_text : Str → Option (Str × Str)
read_text [] = none
read_text (n ∷ rest) = some (take n rest, drop n rest)

pub texts_law : (s rest : Str) → read_text ((length s ∷ s) ++ rest) ≡ some (s, rest)
texts_law s rest = rw (take-append_length s rest, drop-append_length s rest) refl

abbrev pub texts : Pickle Str
texts = record { write = λ s. length s ∷ s; read = read_text; read_write = texts_law }

abbrev with_first : {A B : Type 0} → A → Option (B × Str) → Option ((A × B) × Str)
with_first a none = none
with_first a (some t) = some ((a, t.0), t.1)

abbrev read_second :
    {A B : Type 0} → (Str → Option (B × Str)) → Option (A × Str) → Option ((A × B) × Str)
read_second read none = none
read_second read (some r) = with_first r.0 (read r.1)

pub paired_law :
    {A B : Type 0} (p : Pickle A) (q : Pickle B) (x : A × B) (rest : Str)
    → read_second q.read (p.read ((p.write x.0 ++ q.write x.1) ++ rest)) ≡ some (x, rest)
paired_law p q x rest =
    ap (λ s. read_second q.read (p.read s)) (append_assoc (p.write x.0) (q.write x.1) rest)
    ∙ ap (read_second q.read) (p.read_write x.0 (q.write x.1 ++ rest))
    ∙ ap (with_first x.0) (q.read_write x.1 rest)

abbrev pub paired : {A B : Type 0} → Pickle A → Pickle B → Pickle (A × B)
paired p q = record {
  write = λ x. p.write x.0 ++ q.write x.1;
  read = λ s. read_second q.read (p.read s);
  read_write = paired_law p q;
}

abbrev write_option : Option ℕ → Str
write_option none = 0 ∷ []
write_option (some n) = 1 ∷ n ∷ []

abbrev read_option : Str → Option (Option ℕ × Str)
read_option (zero ∷ rest) = some (none, rest)
read_option (suc zero ∷ n ∷ rest) = some (some n, rest)
read_option _ = none

pub option_law : (o : Option ℕ) (rest : Str) → read_option (write_option o ++ rest) ≡ some (o, rest)
option_law none rest = refl
option_law (some n) rest = refl

abbrev pub options : Pickle (Option ℕ)
options = record { write = write_option; read = read_option; read_write = option_law }

abbrev write_state : KeyState → Str
write_state active = 0 ∷ []
write_state deactivated = 1 ∷ []
write_state soft_deleted = 2 ∷ []
write_state destroyed = 3 ∷ []
write_state (unknown s) = 4 ∷ length s ∷ s

abbrev read_unknown : Option (Str × Str) → Option (KeyState × Str)
read_unknown none = none
read_unknown (some r) = some (unknown r.0, r.1)

abbrev read_state : Str → Option (KeyState × Str)
read_state (zero ∷ rest) = some (active, rest)
read_state (suc zero ∷ rest) = some (deactivated, rest)
read_state (suc (suc zero) ∷ rest) = some (soft_deleted, rest)
read_state (suc (suc (suc zero)) ∷ rest) = some (destroyed, rest)
read_state (suc (suc (suc (suc zero))) ∷ rest) = read_unknown (read_text rest)
read_state _ = none

pub state_law : (st : KeyState) (rest : Str) → read_state (write_state st ++ rest) ≡ some (st, rest)
state_law active rest = refl
state_law deactivated rest = refl
state_law soft_deleted rest = refl
state_law destroyed rest = refl
state_law (unknown s) rest = ap read_unknown (texts_law s rest)

abbrev states : Pickle KeyState
states = record { write = write_state; read = read_state; read_write = state_law }

abbrev write_all : List Str → Str
write_all [] = []
write_all (s ∷ l) = (length s ∷ s) ++ write_all l

abbrev cons_read : Str → Option (List Str × Str) → Option (List Str × Str)
cons_read s none = none
cons_read s (some r) = some (s ∷ r.0, r.1)

abbrev read_many : ℕ → Str → Option (List Str × Str)
read_many zero s = some ([], s)
read_many (suc n) s = elim (read_text s) [ none ↦ none | some r ↦ cons_read r.0 (read_many n r.1) ]

pub many_law :
    (l : List Str) (rest : Str) → read_many (length l) (write_all l ++ rest) ≡ some (l, rest)
many_law [] rest = refl
many_law (s ∷ l) rest =
    rw
      (
        append_assoc s (write_all l) rest,
        take-append_length s (write_all l ++ rest),
        drop-append_length s (write_all l ++ rest),
        many_law l rest,
      )
      refl

abbrev read_list : Str → Option (List Str × Str)
read_list [] = none
read_list (n ∷ rest) = read_many n rest

abbrev lists : Pickle (List Str)
lists = record { write = λ l. length l ∷ write_all l; read = read_list; read_write = many_law }

abbrev Fields : Type 0
Fields =
    (Str × ℕ)
    × ((KeyState × Str)
        × ((Str × List Str) × ((Str × Str) × ((Str × ℕ) × ((Option ℕ × ℕ) × Option ℕ)))))

abbrev fields : Pickle Fields
fields = paired (paired texts numbers) (
    paired (paired states texts) (
      paired (paired texts lists) (
        paired (paired texts texts)
          (paired (paired texts numbers) (paired (paired options numbers) options)))))

abbrev to_fields : KeyMetadata → Fields
to_fields m = (
  (m.key_id, m.version),
  (
    (m.state, m.key_type),
    (
      (m.algorithm, m.key_usage),
      (
        (m.encrypted_material, m.kek_type),
        (
          (m.public_key, m.created_at),
          ((m.deleted_at, m.rotation_period_days), m.next_rotation_at),
        ),
      ),
    ),
  ),
)

abbrev of_fields : Fields → KeyMetadata
of_fields ((a, b), ((c, d), ((e, f), ((g, h), ((i, j), ((k, l), n)))))) = record {
  key_id = a;
  version = b;
  state = c;
  key_type = d;
  algorithm = e;
  key_usage = f;
  encrypted_material = g;
  kek_type = h;
  public_key = i;
  created_at = j;
  deleted_at = k;
  rotation_period_days = l;
  next_rotation_at = n;
}

abbrev pub parsed_fields : Option (Fields × Str) → Option KeyMetadata
parsed_fields none = none
parsed_fields (some r) = some (of_fields r.0)

abbrev marshal : KeyMetadata → Str
marshal m = 123 ∷ fields.write (to_fields m)

abbrev unmarshal : Str → Option KeyMetadata
unmarshal [] = none
unmarshal (c ∷ s) = parsed_fields (fields.read s)

pub unmarshal_law : (m : KeyMetadata) → unmarshal (marshal m) ≡ some m
unmarshal_law m =
    ap (λ s. parsed_fields (fields.read s)) (sym (append-nil (fields.write (to_fields m))))
    ∙ ap parsed_fields (fields.read_write (to_fields m) [])

pub marshal_nonempty : (m : KeyMetadata) → marshal m ≢ []
marshal_nonempty m e = cc

abbrev pub json : Codec
json = record {
  marshal = marshal;
  unmarshal = unmarshal;
  unmarshal_marshal = unmarshal_law;
  marshal_ne = marshal_nonempty;
}
