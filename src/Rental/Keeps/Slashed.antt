-- ===== src/Rental/Keeps/Slashed.antt =====
-- The oracle's slash of a deposit keeps the books, and so do the settings of the oracles.
use lease_flow_protocol_cont.Base.{
  negsuc, false, ℤ, Address, Env, ◌>>=◌, ◌>>◌, After, After-pure, After-raise, After-gets,
  After-bind, After-guard, After-checked, After-branch, After-modify, After-modified,
  After-attempt_any, After-or_trap, After-of_result, After-map,
}
use lease_flow_protocol_cont.Velocity.Calls.{
  record_termination, update_portfolio_size, get_velocity_stats,
}
use lease_flow_protocol_cont.Rental.Deposit.{return_nft}
use lease_flow_protocol_cont.Rental.Types.{LeaseInstance, OraclePayload}
use lease_flow_protocol_cont.Rental.Store.{
  World, RentalStore, acquire_reentrancy_lock, pay_out, save_lease_instance, guarded, publish,
}
use lease_flow_protocol_cont.Rental.Slash.{
  hold_massive_slash, flag_tenant, settle_slash, slashed, slash_event, execute_deposit_slash_inner,
  execute_deposit_slash,
}
use lease_flow_protocol_cont.Rental.Books.{
  IsConsistent, IsCollected, IsCollected-of, Consistent, save-Consistent, open_books,
}
use lease_flow_protocol_cont.Rental.Rules.{After-load_lease, After-paid, After-guarded}
use lease_flow_protocol_cont.Rental.Acceptance.{Accepted, accept_payload-Accepted}
use lease_flow_protocol_cont.Rental.Keeps.Paid.{KeepsBooks}
use lease_flow_protocol_cont.Rental.Keeps.Created.{SameBooks, same, carried}
use lease_flow_protocol_cont.Rental.Keeps.Ended.{cleared, After-return_nft}

module _ {W : Type 0} (world : World W) (self : Address) (env : Env) (p : OraclePayload) where
  Accepted-same : {s d : RentalStore W} → Accepted world env p s d → SameBooks s d
  Accepted-same a = same a.leases a.balances a.locked a.hierarchy

  settle_slash-Keeps :
      (s : RentalStore W) (l : LeaseInstance) (a b c : ℤ)
      → IsCollected s.roommate_balances p.lease_id l
      → Consistent s.leases s.roommate_balances false s.fallback_hierarchy
      → After
          (λ a d. Consistent d.leases d.roommate_balances false d.fallback_hierarchy)
          s
          (settle_slash world self env p l a b c)
  unfolding settle_slash flag_tenant
  settle_slash-Keeps s l a b c k h =
      After-bind _ _ (
        After-branch _ _ _ (λ _. After-modified _ _ (After-modify _ paid)) (λ _. After-pure _ paid))
    where
      paid :
          {flags : _} {events : _}
          → After
              (λ a d. Consistent d.leases d.roommate_balances false d.fallback_hierarchy)
              (record s { tenant_flags = flags; events = events })
              (do
                pay_out world l.payment_token self l.tenant c
                pay_out world l.payment_token self l.landlord b
                save_lease_instance p.lease_id (slashed l)
                guarded (record_termination env l.landlord p.lease_id)
                guarded (update_portfolio_size l.landlord (negsuc 0))
                return_nft world self l
                (_, _, _, _) ← guarded (get_velocity_stats l.landlord)
                publish (slash_event world self env p l b c))
      paid = After-paid _ _ _ _ _ _ λ _. After-paid _ _ _ _ _ _ λ _. After-modified _ _ (
          After-guarded _ _ λ _ _. After-guarded _ _ λ _ _. After-return_nft _ _ _ _ λ _ _ _.
            After-guarded _ _
              λ _ _. After-modify _ (save-Consistent h p.lease_id _ (cleared _ p.lease_id l k)))

  -- The part of a slash once the payload is accepted.
  inner-Keeps :
      (s : RentalStore W)
      → Consistent s.leases s.roommate_balances false s.fallback_hierarchy
      → After
          (λ a d. Consistent d.leases d.roommate_balances false d.fallback_hierarchy)
          s
          (execute_deposit_slash_inner world self env p)
  unfolding execute_deposit_slash_inner hold_massive_slash
  inner-Keeps s h = After-bind _ _ (
      After-map
        (λ _ d a.
          let k = carried (Accepted-same a) h in
          After-load_lease _ _ λ l found. After-guard _ _ _ λ _. After-guard _ _ _ λ _.
            After-guard _ _ _ λ _. After-guarded _ _ λ _ _. After-guarded _ _ λ _ _.
              After-checked _ _ _ λ _. After-bind _ _ (
                After-branch _ _ _
                  (λ _. After-bind _ _ (
                    After-gets _ (
                      After-branch _ _ _
                        (λ _. After-checked _ _ _ λ _. After-modified _ _ (After-raise _))
                        (λ _.
                          After-pure _
                            (settle_slash-Keeps _ l _ _ _ (IsCollected-of k _ found) k)))))
                  (λ _. After-pure _ (settle_slash-Keeps _ l _ _ _ (IsCollected-of k _ found) k))))
        (accept_payload-Accepted world self env p s))

  pub execute_deposit_slash-Keeps :
      (s : RentalStore W)
      → IsConsistent s
      → After KeepsBooks s (execute_deposit_slash world self env p)
  unfolding execute_deposit_slash acquire_reentrancy_lock
  execute_deposit_slash-Keeps s h = After-bind _ _ (
      After-bind _ _ (
        After-gets _ (
          After-bind _ _ (
            After-or_trap _ λ _ _. After-modify _ (
              After-attempt_any _ _
                (After-map (λ _ d k. After-modified _ _ (After-of_result _ λ _ _. k))
                  (inner-Keeps _ (open_books h)))
                (λ e d. After-modified _ _ (After-of_result _ λ _ x. absurd cc)))))))
