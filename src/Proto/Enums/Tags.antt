-- ===== src/Proto/Enums/Tags.antt =====
-- The tags of crates/capsaicin-proto/src/enums.rs, and the bound that limits.rs puts on a count.
use capsaicin.Base.{
  ℕ, ◌≡◌, ◌≤◌, ◌<◌, refl, sym, ◌∙◌, ==_iff, ltb, ltb→le, ◌==◌, if◌then◌else◌, arith, Bool-cases,
  inl, inr,
}
use capsaicin.Base.Outcome.{Outcome, ok}
use capsaicin.Base.Ensures.{Ensures, returns, fails, Ensures-if}
use capsaicin.Proto.Error.{ProtoError}
use capsaicin.Proto.Enums.{
  ChannelType, channel_type_to_u8, channel_type_from_u8, LinkError, link_error_to_u32,
  link_error_from_u32, bounded_size, bounded_count,
}

pub channel_type_from_u8-channel_type_to_u8 :
    (t : ChannelType) → channel_type_from_u8 (channel_type_to_u8 t) ≡ ok t
unfolding channel_type_from_u8 channel_type_to_u8
channel_type_from_u8-channel_type_to_u8 ChannelType.main = refl
channel_type_from_u8-channel_type_to_u8 _ = refl

pub link_error_from_u32-link_error_to_u32 :
    (t : LinkError) → link_error_from_u32 (link_error_to_u32 t) ≡ ok t
unfolding link_error_from_u32 link_error_to_u32
link_error_from_u32-link_error_to_u32 LinkError.no_error = refl
link_error_from_u32-link_error_to_u32 _ = refl

pub channel_type_to_u8_bound : (t : ChannelType) → channel_type_to_u8 t < 256
unfolding channel_type_to_u8
channel_type_to_u8_bound t = ground arith

pub link_error_to_u32_bound : (t : LinkError) → link_error_to_u32 t < 256
unfolding link_error_to_u32
link_error_to_u32_bound t = ground arith

-- One case of a reader of tags: the type it gives has the tag it tested for.
Ensures-tag {ℓ} :
    {E : Type ℓ} {A : Type 0} (tag : A → ℕ) (v n : ℕ) {t : A} {m : Outcome E A}
    → tag t ≡ n
    → Ensures (λ a. tag a ≡ v) m
    → Ensures (λ a. tag a ≡ v) (if v == n then ok t else m)
Ensures-tag tag v n h k =
    Ensures-if (v == n) _ _ (λ same. returns (h ∙ sym ((==_iff v n).0 same))) (λ other. k)

-- A tag that is read stands for its type: the reader accepts no other tag.
pub channel_type_from_u8_lem :
    (v : ℕ) → Ensures (λ t. channel_type_to_u8 t ≡ v) (channel_type_from_u8 v)
unfolding channel_type_from_u8 channel_type_to_u8
channel_type_from_u8_lem v =
    let case = Ensures-tag {E = ProtoError} channel_type_to_u8 v in
    case 1 _ _ refl (
      case 2 _ _ refl (
        case 3 _ _ refl (
          case 4 _ _ refl (
            case 5 _ _ refl (
              case 6 _ _ refl (
                case 7 _ _ refl (
                  case 8 _ _ refl
                    (case 9 _ _ refl (case 10 _ _ refl (case 11 _ _ refl (fails)))))))))))

pub link_error_from_u32_lem :
    (v : ℕ) → Ensures (λ t. link_error_to_u32 t ≡ v) (link_error_from_u32 v)
unfolding link_error_from_u32 link_error_to_u32
link_error_from_u32_lem v =
    let case = Ensures-tag {E = ProtoError} link_error_to_u32 v in
    case 0 _ _ refl (
      case 1 _ _ refl (
        case 2 _ _ refl (
          case 3 _ _ refl (
            case 4 _ _ refl (
              case 5 _ _ refl
                (case 6 _ _ refl (case 7 _ _ refl (case 8 _ _ refl (case 9 _ _ refl (fails))))))))))

pub bounded_count_lem :
    (claimed max : ℕ) → Ensures (λ n. (n ≡ claimed) × (n ≤ max)) (bounded_count claimed max)
unfolding bounded_count bounded_size
bounded_count_lem claimed max = elim (Bool-cases (ltb max claimed)) [
  | inl over ↦ rw over fails
  | inr within ↦ rw within (returns (refl, ltb→le max claimed within))
]

pub bounded_count_within :
    (claimed max : ℕ) → claimed ≤ max → bounded_count claimed max ≡ ok claimed
unfolding bounded_count bounded_size
bounded_count_within claimed max h = ground arith
