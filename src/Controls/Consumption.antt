-- ===== src/Controls/Consumption.antt =====
-- Manual flow control: what `consume_received_data` may give back.
use ngh.Base.{ℕ, ◌+◌, ◌-◌, ◌≤◌, ◌<◌, ◌≡◌, refl, sym, ◌∙◌, ◌⊎◌, inl, inr, false, some, arith}
use ngh.Base.Dict.{
  IsDict, lookup, get_or, erase-IsDict, insert-IsDict, lookup-insert, lookup-erase_self,
  lookup-erase_ne,
}
use ngh.Values.{Value}
use ngh.Errors.{ok, err, done, value_error}
use ngh.Integers.{stream_id, nonnegative_size}
use ngh.Engine.{Engine}
use ngh.Connection.{Connection}
use ngh.Streams.Order.{IsActive}
use ngh.Controls.{consume_received_data, consume, settle}

module _ {S : Type 0} (g : Engine S) where
  consume-excess :
      (stream amount : ℕ) (stream_value amount_value : Value) (c : Connection S)
      → IsActive c
      → c.auto_window_update ≡ false
      → stream_id stream_value ≡ ok stream
      → nonnegative_size amount_value ≡ ok amount
      → get_or stream 0 c.unconsumed < amount
      → consume_received_data g stream_value amount_value c ≡ (err value_error, c)
  unfolding consume_received_data
  consume-excess stream amount stream_value amount_value c a auto es ea h = ground arith

  consume_received_data-consume :
      (stream amount : ℕ) (stream_value amount_value : Value) (c : Connection S)
      → IsActive c
      → c.auto_window_update ≡ false
      → stream_id stream_value ≡ ok stream
      → nonnegative_size amount_value ≡ ok amount
      → 0 < amount
      → consume_received_data g stream_value amount_value c ≡ consume g stream amount c
  unfolding consume_received_data
  consume_received_data-consume stream amount stream_value amount_value c a auto es ea pos =
      ground arith

  consume-done :
      (stream amount n : ℕ) (s s' : S) (c : Connection S)
      → c.session ≡ some s
      → amount ≤ get_or stream 0 c.unconsumed
      → g.consume stream amount s ≡ (done n, s')
      → consume g stream amount c ≡ (
        ok tt,
        settle g stream (get_or stream 0 c.unconsumed - amount) (record c { session = some s' }),
      )
  unfolding consume
  consume-done stream amount n s s' c es h e = ground arith

  settle_lem :
      (stream left : ℕ) (c : Connection S)
      → IsDict c.unconsumed
      → IsDict (settle g stream left c).unconsumed
        × (get_or stream 0 (settle g stream left c).unconsumed ≡ left)
        × ((other : ℕ)
            → ¬ (other ≡ stream)
            → lookup other (settle g stream left c).unconsumed ≡ lookup other c.unconsumed)
        × ((settle g stream left c).session ≡ c.session)
  unfolding settle
  settle_lem stream left c h = (
    ground (arith, erase-IsDict stream c.unconsumed h, insert-IsDict stream left c.unconsumed h),
    ground (
      arith,
      lookup-erase_self stream c.unconsumed h,
      lookup-insert stream stream left c.unconsumed,
    ),
    λ other ne. ground (
      arith,
      lookup-erase_ne stream other c.unconsumed (λ q. ne (sym q)),
      lookup-insert stream other left c.unconsumed,
    ),
    refl,
  )

  -- On an active connection whose flow control is manual, a positive number of bytes is given back
  -- to the peer only out of the bytes of the stream that the application has not given back yet.
  -- More than that is a ValueError, which changes nothing. Where the engine takes the amount, the
  -- balance of the stream falls by just that amount, and no other stream's balance changes.
  pub consume_received_data_lem :
      (stream amount : ℕ) (stream_value amount_value : Value) (s : S) (c : Connection S)
      → IsActive c
      → IsDict c.unconsumed
      → c.auto_window_update ≡ false
      → c.session ≡ some s
      → stream_id stream_value ≡ ok stream
      → nonnegative_size amount_value ≡ ok amount
      → 0 < amount
      → (n : ℕ) (s' : S) → g.consume stream amount s ≡ (done n, s')
      → let balance = get_or stream 0 c.unconsumed in
        let (r, d) = consume_received_data g stream_value amount_value c in
        ((balance < amount) × (r ≡ err value_error) × (d ≡ c))
        ⊎ ((amount ≤ balance)
            × (r ≡ ok tt)
            × (d.session ≡ some s')
            × IsDict d.unconsumed
            × (get_or stream 0 d.unconsumed + amount ≡ balance)
            × ((other : ℕ)
                → ¬ (other ≡ stream)
                → lookup other d.unconsumed ≡ lookup other c.unconsumed))
  consume_received_data_lem stream amount stream_value amount_value s c a v auto es est ea pos n s'
        e =
      let cases : (get_or stream 0 c.unconsumed < amount)
          ⊎ (amount ≤ get_or stream 0 c.unconsumed) =
        omega arith in
      elim cases [
        | inl h ↦
            rw (consume-excess stream amount stream_value amount_value c a auto est ea h)
              (inl (h, refl, refl))
        | inr h ↦
            let (x, y, z, w) =
              settle_lem stream (get_or stream 0 c.unconsumed - amount)
                (record c { session = some s' }) v in
            rw
              (consume_received_data-consume stream amount stream_value amount_value c a auto est ea
                  pos
                ∙ consume-done stream amount n s s' c es h e)
              (inr (h, refl, w, x, omega (arith, y, h), z))
      ]
