-- ===== src/Health/Mailbox.antt =====
-- `DeviceHealthMailbox` of include/audio/device_health.hpp: three slots that one publisher and one
-- reader pass to each other. The snapshot is any type; `empty` is the initial one. A publication is
-- its two steps, the write to the back slot and the exchange; a read is taken as one step.
pub mod Latest
use audiox.Prelude.{
  ◌==◌, ℕ, not, bit_or, set, if◌then◌else◌, get_or, bit_and, List, ◌∷◌, [], zero, suc,
}

pub record Mailbox (A : Type 0) : Type 0 where
  pub slots : List A
  pub middle : ℕ
  pub back : ℕ
  pub front : ℕ

unfoldable pub new : {A : Type 0} → A → Mailbox A
new empty = record { slots = empty ∷ empty ∷ empty ∷ []; middle = 1; back = 2; front = 0 }

unfoldable pub publish_write : {A : Type 0} → A → Mailbox A → Mailbox A
publish_write a m = record m { slots = set m.slots m.back a }

unfoldable pub publish_exchange : {A : Type 0} → Mailbox A → Mailbox A
publish_exchange m = record m { back = bit_and m.middle 3; middle = bit_or m.back 4 }

unfoldable pub take_fresh : {A : Type 0} → Mailbox A → Mailbox A
take_fresh m =
    if not (bit_and m.middle 4 == 0)
    then record m { front = bit_and m.middle 3; middle = m.front }
    else m

-- The slot that `read` returns.
unfoldable pub read : {A : Type 0} → A → Mailbox A → A
read empty m = let t = take_fresh m in get_or t.slots t.front empty
