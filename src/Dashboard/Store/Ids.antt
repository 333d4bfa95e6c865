-- ===== src/Dashboard/Store/Ids.antt =====
-- What `normalizeAgentID` of internal/webterm/state_store.go makes of a text.
use telegram_remote_terminal.Prelude.{
  ℕ, ◌≤◌, ◌<◌, ◌+◌, ◌*◌, ◌≡◌, refl, true, false, [], ◌∷◌, Bytes, some, arith, All, keep_if, length,
  if◌then◌else◌, keep_if-All, keep_if_self, length-take, take_short, All-take, Bool-cases, inl, inr,
  ◌↔◌, subst, ltb, ◌-◌, ◌/◌, ◌%◌,
}
use telegram_remote_terminal.Text.{trim_space, is_empty}
use telegram_remote_terminal.Text.Trim.{IsPlain, trim_space-plain}
use telegram_remote_terminal.Web.Random.{hex_encode, IsByte}
use telegram_remote_terminal.Dashboard.Store.{
  is_id_byte, normalize_agent_id, random_hex, id_or_random,
}

abbrev pub IsIdByte : ℕ → Type 0
IsIdByte c = is_id_byte c ≡ true

IsPlain-IsIdByte : (s : Bytes) → All IsIdByte s → All IsPlain s
IsPlain-IsIdByte [] h = tt
IsPlain-IsIdByte (c ∷ s) h = ((ground (arith, h.0), ground (arith, h.0)), IsPlain-IsIdByte s h.1)

-- A text that is an agent's identifier already.
abbrev pub IsAgentId : Bytes → Type 0
IsAgentId s = (length s ≤ 48) × All IsIdByte s

pub normalize_agent_id_self : (s : Bytes) → IsAgentId s → normalize_agent_id s ≡ s
unfolding normalize_agent_id
normalize_agent_id_self s (short, ids) =
    rw (trim_space-plain s (IsPlain-IsIdByte s ids), keep_if_self is_id_byte s ids)
      (take_short 48 s short)

pub normalize_agent_id-IsAgentId : (v : Bytes) → IsAgentId (normalize_agent_id v)
unfolding normalize_agent_id
normalize_agent_id-IsAgentId v = (
  length-take 48 (keep_if is_id_byte (trim_space v)),
  All-take IsIdByte 48 (keep_if is_id_byte (trim_space v)) (keep_if-All is_id_byte (trim_space v)),
)

-- `normalizeAgentID` gives at most 48 bytes, each an ASCII letter, a digit, a dash or an underscore,
-- and leaves alone exactly the texts that are such.
pub normalize_agent_id_bounds :
    (v : Bytes)
    → (length (normalize_agent_id v) ≤ 48)
      × All IsIdByte (normalize_agent_id v)
      × ((normalize_agent_id v ≡ v) ↔ IsAgentId v)
normalize_agent_id_bounds v =
    let good = normalize_agent_id-IsAgentId v in
    (good.0, good.1, (λ same. subst IsAgentId same good, normalize_agent_id_self v))

pub hex_encode-IsIdByte : (s : Bytes) → All IsByte s → All IsIdByte (hex_encode s)
unfolding hex_encode
hex_encode-IsIdByte [] h = tt
hex_encode-IsIdByte (b ∷ s) h =
    (digit (b / 16) (omega (arith, h.0)), (digit (b % 16) (omega arith), hex_encode-IsIdByte s h.1))
  where
    digit : (n : ℕ) → n < 16 → IsIdByte (if ltb n 10 then b'0' + n else b'a' + (n - 10))
    digit n h = ground arith

length-hex_encode : (s : Bytes) → length (hex_encode s) ≡ 2 * length s
unfolding hex_encode
length-hex_encode [] = omega arith
length-hex_encode (b ∷ s) = omega (arith, length-hex_encode s)

-- The identifier that `CreateGateway` chooses: the given one, or a random one of at most 22 bytes.
pub id_or_random-IsAgentId :
    (v b clock : Bytes)
    → All IsByte b
    → length b ≤ 22
    → IsAgentId (id_or_random (normalize_agent_id v) (random_hex (some b) clock))
      × (is_empty (id_or_random (normalize_agent_id v) (random_hex (some b) clock)) ≡ false)
unfolding random_hex
id_or_random-IsAgentId v b clock bytes short = elim (Bool-cases (is_empty (normalize_agent_id v))) [
  | inl blank ↦ rw blank (
    (omega (arith, length-hex_encode b), (refl, (refl, (refl, hex_encode-IsIdByte b bytes)))),
    refl,
  )
  | inr given ↦ rw given (normalize_agent_id-IsAgentId v, given)
]
