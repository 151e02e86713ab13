-- ===== src/Lifecycle/Metadata.antt =====
-- internal/lifecycle/manager.go: the key metadata and its states; internal/seal/kek.go: what the
-- manager asks of a KEK. Go strings and byte slices are byte lists, a nil slice being the empty
-- one; a zero time.Time is `none`.
use yvonne.Base.{ℕ, Str, codes, List, Option, none, some, ◌≡◌, ◌≢◌, [], ◌==◌, if◌then◌else◌}

-- A stored state is a string: any other one is `unknown`.
pub data KeyState : Type 0 where
  active deactivated soft_deleted destroyed : KeyState
  unknown : Str → KeyState

pub record KeyMetadata : Type 0 where
  pub key_id : Str
  pub version : ℕ
  pub state : KeyState
  pub key_type : Str
  pub algorithm : Str
  pub key_usage : List Str
  pub encrypted_material : Str
  pub kek_type : Str
  pub public_key : Str
  pub created_at : ℕ
  pub deleted_at : Option ℕ
  pub rotation_period_days : ℕ
  pub next_rotation_at : Option ℕ

-- json.Marshal and json.Unmarshal at KeyMetadata: no text is empty, and what was written is read
-- back.
pub record Codec : Type 0 where
  pub marshal : KeyMetadata → Str
  pub unmarshal : Str → Option KeyMetadata
  pub unmarshal_marshal : (m : KeyMetadata) → unmarshal (marshal m) ≡ some m
  pub marshal_ne : (m : KeyMetadata) → marshal m ≢ []

-- seal.KEK; `key_size` is `none` where KEKWithKeySize is not implemented.
pub record Kek : Type 0 where
  pub wrap_dek : Str → Option Str
  pub unwrap_dek : Str → Option Str
  pub kek_type : Str
  pub key_size : Option ℕ

unfoldable pub algorithm_from_kek : Kek → Str
algorithm_from_kek kek = elim kek.key_size [
  | none ↦ codes "aes-256-gcm"
  | some size ↦ if size == 16 then codes "sm4-gcm" else codes "aes-256-gcm"
]

unfoldable pub dek_size_from_kek : Kek → ℕ
dek_size_from_kek kek = elim kek.key_size [ none ↦ 32 | some size ↦ size ]

-- 24 * time.Hour, in nanoseconds.
abbrev pub day : ℕ
day = 86_400_000_000_000
