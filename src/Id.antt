-- ===== src/Id.antt =====
-- The identifiers of marie-core/src/id.rs, node.rs and session/model.rs, with their equality.
pub mod Text
mod Examples
use marie.Base.{ℕ, ◌≡◌, ◌↔◌, Bool, true, false, ◌&&◌, List, [], ◌∷◌, arith, PartialEq, nat_beq}

-- `struct ID(u64, u64)`: the prefix of the generator and a local number.
pub record UniqueId : Type 0 where
  pub prefix : ℕ
  pub local : ℕ

unfoldable pub id_beq : UniqueId → UniqueId → Bool
id_beq a b = nat_beq a.prefix b.prefix && nat_beq a.local b.local

pub id_beq_iff : (a b : UniqueId) → (id_beq a b ≡ true) ↔ (a ≡ b)
unfolding id_beq
id_beq_iff a b = ground arith

instance abbrev pub id_eq : PartialEq UniqueId
id_eq = record { eq = id_beq; eq_iff = id_beq_iff }

-- `SessionId`, `FrameId`, `HitlId`, `SessionLogId`, `SecretRef` and `JobId` wrap an `ID`.
abbrev pub SessionId : Type 0
SessionId = UniqueId

abbrev pub FrameId : Type 0
FrameId = UniqueId

abbrev pub HitlId : Type 0
HitlId = UniqueId

abbrev pub SessionLogId : Type 0
SessionLogId = UniqueId

abbrev pub SecretRef : Type 0
SecretRef = UniqueId

-- `struct NodeId(Vec<u8>)`: the bytes of a peer identifier.
abbrev pub NodeId : Type 0
NodeId = List ℕ

unfoldable pub node_beq : NodeId → NodeId → Bool
node_beq [] [] = true
node_beq (x ∷ xs) (y ∷ ys) = nat_beq x y && node_beq xs ys
node_beq [] (y ∷ ys) = false
node_beq (x ∷ xs) [] = false

pub node_beq_iff : (a b : NodeId) → (node_beq a b ≡ true) ↔ (a ≡ b)
unfolding node_beq
node_beq_iff [] [] = ground arith
node_beq_iff (x ∷ xs) (y ∷ ys) = ground (arith, node_beq_iff xs ys)
node_beq_iff [] (y ∷ ys) = ground arith
node_beq_iff (x ∷ xs) [] = ground arith

instance abbrev pub node_eq : PartialEq NodeId
node_eq = record { eq = node_beq; eq_iff = node_beq_iff }
