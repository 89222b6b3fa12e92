-- ===== src/ServerReconciler/BootLaws.antt =====
-- The order in which applyBootOrder sorts, and what it asks of the BMC.
use mathlib.Core.List.{Perm, perm_middle}
use mathlib.Core.List.Perm
use metal_operator.Base.{
  String, ℕ, ◌<◌, ◌≤◌, ◌≡◌, refl, ap, ◌==◌, ◌!=◌, eq_iff, Bool, true, false, not, ◌||◌, [], ◌∷◌,
  ◌++◌, List, length, int_ltb, arith, Bool-cases, inl, inr, ◌⊎◌,
}
use metal_operator.Api.Server.{Server, BootOrder}
use metal_operator.Effects.{Err, Result, Call, History, pure, lift, proceed, ◌>>=◌, ◌>>◌, perform}
use metal_operator.Effects.Env.{Env, Bmc}
use metal_operator.ServerReconciler.Config.{ServerReconciler}
use metal_operator.ServerReconciler.Boot.{
  insert_by_priority, sort_from, sort_by_priority, boot_order_change, devices, apply_order,
  with_sorted_boot_order,
}

-- No entry has a smaller priority than the one before it.
abbrev pub IsSorted : List BootOrder → Type 0
IsSorted [] = Unit
IsSorted (a ∷ []) = Unit
IsSorted (a ∷ b ∷ bs) = (int_ltb b.priority a.priority ≡ false) × IsSorted (b ∷ bs)

insert_by_priority-Perm :
    (b : BootOrder) (cs : List BootOrder) → Perm (insert_by_priority b cs) (b ∷ cs)
unfolding insert_by_priority
insert_by_priority-Perm b [] = Perm.refl (b ∷ [])
insert_by_priority-Perm b (c ∷ cs) =
    elim (Bool-cases (int_ltb c.priority b.priority || not (int_ltb b.priority c.priority))) [
      | inl later ↦
          simp later (Perm.trans (Perm.cons c (insert_by_priority-Perm b cs)) (Perm.swap b c cs))
      | inr here ↦ simp here (Perm.refl (b ∷ c ∷ cs))
    ]

insert_by_priority-IsSorted :
    (b : BootOrder) (cs : List BootOrder) → IsSorted cs → IsSorted (insert_by_priority b cs)
unfolding insert_by_priority
insert_by_priority-IsSorted b [] h = tt
insert_by_priority-IsSorted b (c ∷ []) h = ground arith
insert_by_priority-IsSorted b (c ∷ d ∷ cs) h =
    ground (arith, insert_by_priority-IsSorted b (d ∷ cs))

append_nil : (bs : List BootOrder) → bs ≡ bs ++ []
append_nil [] = refl
append_nil (b ∷ bs) = ap (λ t. b ∷ t) (append_nil bs)

path-Perm : {bs cs : List BootOrder} → bs ≡ cs → Perm bs cs
path-Perm {bs} e = rw (← e) (Perm.refl bs)

sort_from-Perm : (sorted bs : List BootOrder) → Perm (sort_from sorted bs) (sorted ++ bs)
unfolding sort_from
sort_from-Perm sorted [] = path-Perm (append_nil sorted)
sort_from-Perm sorted (b ∷ bs) = Perm.trans (sort_from-Perm (insert_by_priority b sorted) bs) (
    Perm.trans (Perm.append_right bs (insert_by_priority-Perm b sorted))
      (Perm.symm (perm_middle {a = b} sorted bs)))

sort_from-IsSorted : (sorted bs : List BootOrder) → IsSorted sorted → IsSorted (sort_from sorted bs)
unfolding sort_from
sort_from-IsSorted sorted [] h = h
sort_from-IsSorted sorted (b ∷ bs) h =
    sort_from-IsSorted (insert_by_priority b sorted) bs (insert_by_priority-IsSorted b sorted h)

-- Sorting the boot order by priority neither loses nor adds an entry, and no entry of the result
-- has a smaller priority than the one before it.
pub sort_by_priority_lem :
    (bs : List BootOrder) → Perm (sort_by_priority bs) bs × IsSorted (sort_by_priority bs)
unfolding sort_by_priority
sort_by_priority_lem bs = (sort_from-Perm [] bs, sort_from-IsSorted [] bs tt)

-- The BMC reports the devices of `bs` first, in this order.
abbrev pub IsPrefix : List BootOrder → List String → Type 0
IsPrefix [] order = Unit
IsPrefix (b ∷ bs) [] = ⊥
IsPrefix (b ∷ bs) (o ∷ os) = (o ≡ b.device) × IsPrefix bs os

boot_order_change-short :
    (bs : List BootOrder) (order : List String) (b : Bool)
    → length order < length bs
    → boot_order_change bs order b ≡ Result.err (Err.panic "index out of range")
unfolding boot_order_change
boot_order_change-short [] [] b h = ground arith
boot_order_change-short [] (o ∷ os) b h = ground arith
boot_order_change-short (b ∷ bs) [] change h = refl
boot_order_change-short (b ∷ bs) (o ∷ os) change h =
    boot_order_change-short bs os (change || o != b.device) (omega arith)

boot_order_change-changed :
    (bs : List BootOrder) (order : List String)
    → length bs ≤ length order
    → boot_order_change bs order true ≡ Result.ok true
unfolding boot_order_change
boot_order_change-changed [] order h = refl
boot_order_change-changed (b ∷ bs) [] h = ground arith
boot_order_change-changed (b ∷ bs) (o ∷ os) h = boot_order_change-changed bs os (omega arith)

boot_order_change-cases :
    (bs : List BootOrder) (order : List String)
    → length bs ≤ length order
    → IsPrefix bs order × (boot_order_change bs order false ≡ Result.ok false)
      ⊎ (¬ IsPrefix bs order) × (boot_order_change bs order false ≡ Result.ok true)
unfolding boot_order_change
boot_order_change-cases [] order h = inl (tt, refl)
boot_order_change-cases (b ∷ bs) [] h = ground arith
boot_order_change-cases (b ∷ bs) (o ∷ os) h = elim (Bool-cases (o == b.device)) [
  | inl same ↦ ground (arith, eq_iff o b.device, boot_order_change-cases bs os (omega arith))
  | inr other ↦ ground (arith, eq_iff o b.device, boot_order_change-changed bs os (omega arith))
]

short-cases : (a b : ℕ) → (a < b) ⊎ (b ≤ a)
short-cases a b = omega arith

set_then_done :
    (b : Server) (c : Call) (x : Result (Unit {0})) (h : History)
    → (proceed (x, c ∷ h) (λ _. pure b)).1 ≡ c ∷ h
unfolding pure
set_then_done b c (Result.ok u) h = refl
set_then_done b c (Result.err e) h = refl

-- Against the boot order that the BMC reports, applyBootOrder either panics without a call, where
-- the server's spec lists more devices than the BMC; or makes no call, where the sorted devices
-- are the first that the BMC reports; or else makes one call, which sets the sorted devices as
-- the new boot order.
pub apply_order_lem :
    (env : Env) (r : ServerReconciler) (bmc : Bmc) (s : Server) (order : List String) (h : History)
    → (length order < length (sort_by_priority s.spec.boot_order))
        × (apply_order env r bmc s order h ≡ (Result.err (Err.panic "index out of range"), h))
      ⊎ (IsPrefix (sort_by_priority s.spec.boot_order) order
            × (apply_order env r bmc s order h ≡ (Result.ok (with_sorted_boot_order env r s), h))
          ⊎ (¬ IsPrefix (sort_by_priority s.spec.boot_order) order)
            × ((apply_order env r bmc s order h).1
                ≡ Call.set_boot_order s.spec.system_uuid
                    (devices (sort_by_priority s.spec.boot_order))
                  ∷ h))
unfolding apply_order ◌>>=◌ ◌>>◌ pure lift perform
apply_order_lem env r bmc s order h =
    elim (short-cases (length order) (length (sort_by_priority s.spec.boot_order))) [
      | inl short ↦ inl (
        short,
        rw (boot_order_change-short (sort_by_priority s.spec.boot_order) order false short),
      )
      | inr long ↦
          inr (elim (boot_order_change-cases (sort_by_priority s.spec.boot_order) order long) [
            | inl (prefix, keep) ↦ inl (prefix, rw keep)
            | inr (moved, change) ↦ inr (
              moved,
              rw change (
                  set_then_done (with_sorted_boot_order env r s)
                    (Call.set_boot_order s.spec.system_uuid
                      (devices (sort_by_priority s.spec.boot_order)))
                    (bmc.set_boot_order s.spec.system_uuid
                      (devices (sort_by_priority s.spec.boot_order)) h)
                    h),
            )
          ])
    ]
