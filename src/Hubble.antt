-- ===== src/Hubble.antt =====
-- src/domain/hubble.ts: the enumerations that flows and links carry.
use hubble_ui.Prelude.{ℕ, Bool, true, ◌≡◌, ◌↔◌, arith, nat_eq, Eq}

pub data Verdict : Type 0 where
  unknown forwarded dropped error audit redirected traced translated : Verdict

abbrev pub verdict_number : Verdict → ℕ
verdict_number unknown = 0
verdict_number forwarded = 1
verdict_number dropped = 2
verdict_number error = 3
verdict_number audit = 4
verdict_number redirected = 5
verdict_number traced = 6
verdict_number translated = 7

-- `===` on verdicts, which are their numbers
abbrev pub verdict_eq : Verdict → Verdict → Bool
verdict_eq a b = nat_eq (verdict_number a) (verdict_number b)

pub verdict_eq_iff : (a b : Verdict) → (verdict_eq a b ≡ true) ↔ (a ≡ b)
verdict_eq_iff a b = ground arith

instance abbrev pub verdict_Eq : Eq Verdict
verdict_Eq = record { beq = verdict_eq; beq_iff = verdict_eq_iff }

pub data IpProtocol : Type 0 where
  unknown tcp udp icmpv4 icmpv6 : IpProtocol

abbrev ip_protocol_number : IpProtocol → ℕ
ip_protocol_number unknown = 0
ip_protocol_number tcp = 1
ip_protocol_number udp = 2
ip_protocol_number icmpv4 = 3
ip_protocol_number icmpv6 = 4

-- `===` on protocols
abbrev pub ip_protocol_eq : IpProtocol → IpProtocol → Bool
ip_protocol_eq a b = nat_eq (ip_protocol_number a) (ip_protocol_number b)

pub data AuthType : Type 0 where
  disabled spire test_always_fail : AuthType

abbrev auth_type_number : AuthType → ℕ
auth_type_number disabled = 0
auth_type_number spire = 1
auth_type_number test_always_fail = 2

abbrev auth_type_eq : AuthType → AuthType → Bool
auth_type_eq a b = nat_eq (auth_type_number a) (auth_type_number b)

pub auth_type_eq_iff : (a b : AuthType) → (auth_type_eq a b ≡ true) ↔ (a ≡ b)
auth_type_eq_iff a b = ground arith

instance abbrev pub auth_type_Eq : Eq AuthType
auth_type_Eq = record { beq = auth_type_eq; beq_iff = auth_type_eq_iff }
