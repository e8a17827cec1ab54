-- ===== src/Lease/Oracle.antt =====
-- contracts/leaseflow/src/lib.rs: rent pegged to a fiat amount by a SEP-40 price oracle.
use lease_flow_protocol_cont.Base.{
  wrap_i64, ℕ, ◌-◌, ◌^◌, not, ◌&&◌, Option, none, some, insert, lookup, ltb, leb, ℤ, pos, ltb_ℤ,
  leb_ℤ, ⊤, pure, trap, branch, raise_if, or_raise, or_trap, ◌>>=◌, ◌>>◌, add_i64, sub_i128,
  mul_i128, div_i128,
}
use lease_flow_protocol_cont.Lease.Types.{
  Address, active, Error, PriceData, FiatPegConfig, Lease, Event, Host, Call, load, store, publish,
}
use lease_flow_protocol_cont.Lease.Create.{is_state}

-- The change from the last price, in basis points of it.
unfoldable pub price_change : ℤ → ℤ → Call ℤ
price_change last_price price = do
  difference ←
      branch (ltb_ℤ last_price price) (sub_i128 price last_price) (sub_i128 last_price price)
  scaled ← mul_i128 difference (pos 10000)
  div_i128 scaled last_price

-- The circuit breaker: a price within an hour of the last one may not move further than the
-- threshold.
unfoldable pub check_against : ℕ → FiatPegConfig → ℤ → Option ℤ → Option ℕ → Call ⊤
check_against now config price (some last_price) (some last_timestamp) =
    branch (leb (now - last_timestamp) 3600 && ltb_ℤ (pos 0) last_price)
      (do
        change ← price_change last_price price
        raise_if (ltb_ℤ (pos config.volatility_threshold) change) Error.volatility_circuit_breaker)
      (pure tt)
check_against now config price (some last_price) none = pure tt
check_against now config price none last_timestamp = pure tt

-- The `nth` call of the oracle within this invocation.
unfoldable pub get_oracle_price : Host → ℕ → Lease → Address → Call PriceData
get_oracle_price host nth lease oracle_address = do
  config ← or_trap lease.fiat_peg_config
  price_data ←
      or_raise (host.get_price nth oracle_address config.asset_address) Error.oracle_call_failed
  let age = host.timestamp - price_data.timestamp
  raise_if (ltb config.staleness_threshold age) Error.oracle_data_stale
  raise_if (ltb 3600 age) Error.oracle_data_stale
  check_against host.timestamp config price_data.price lease.last_oracle_price
      lease.last_oracle_timestamp
  pure price_data

-- 10^decimals in i128
abbrev pub pow10_i128 : ℕ → Call ℤ
pow10_i128 decimals = branch (leb decimals 38) (pure (pos (10 ^ decimals))) trap

unfoldable pub calculate_fiat_pegged_rent : Host → Lease → Call ℤ
calculate_fiat_pegged_rent host lease = do
  config ← or_raise lease.fiat_peg_config Error.invalid_fiat_peg_config
  branch config.enabled
      (do
        price_data ← get_oracle_price host 0 lease config.oracle_address
        decimals_factor ← pow10_i128 price_data.decimals
        scaled ← mul_i128 config.target_usd_amount decimals_factor
        crypto_amount_i128 ← div_i128 scaled price_data.price
        raise_if (ltb_ℤ (pos 0x7fffffffffffffff) crypto_amount_i128) Error.invalid_amount
        let crypto_amount = wrap_i64 crypto_amount_i128
        raise_if (leb_ℤ crypto_amount (pos 0)) Error.invalid_amount
        pure crypto_amount)
      (pure lease.rent_amount)

unfoldable pub process_fiat_pegged_rent_payment : Host → ℕ → Call ⊤
process_fiat_pegged_rent_payment host lease_id = do
  data' ← load
  lease ← or_raise (lookup lease_id data'.leases) Error.lease_not_found
  raise_if (not (is_state lease.state active)) Error.lease_not_active
  config ← or_raise lease.fiat_peg_config Error.invalid_fiat_peg_config
  raise_if (not config.enabled) Error.invalid_fiat_peg_config
  current_rent_amount ← calculate_fiat_pegged_rent host lease
  price_data ← get_oracle_price host 1 lease config.oracle_address
  total_paid_rent ← add_i64 lease.total_paid_rent current_rent_amount
  publish (
      Event.fiat_pegged_rent_billed lease_id config.target_usd_amount price_data.price
        current_rent_amount host.timestamp config.asset_address)
  store (record data' {
    leases =
        insert lease_id
          (record lease {
            last_oracle_price = some price_data.price;
            last_oracle_timestamp = some price_data.timestamp;
            last_rent_payment_timestamp = host.timestamp;
            total_paid_rent = total_paid_rent;
          })
          data'.leases;
  })
