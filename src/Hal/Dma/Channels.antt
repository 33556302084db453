-- ===== src/Hal/Dma/Channels.antt =====
-- Starting and stopping the channels of the DMA controller.
use embed_rtos.Base.{
  ℕ, ◌*◌, ◌%◌, ◌^◌, ◌<◌, ◌≡◌, ◌≢◌, refl, sym, ◌∙◌, true, false, not, some, length, arith, leb-false,
  ◌==◌, get_or, set, bit_or, bit_and, get_or-set_self, get_or-set_ne, length-set,
}
use embed_rtos.Base.Bits.{bit_or-step, bit_and-step, bit_and-mask}
use embed_rtos.Hal.Dma.{Dma, start, stop, is_busy}

-- A controller that is on, with its eight channels.
pub record IsOn (dma : Dma) : Type 0 where
  pub on : dma.initialized ≡ true
  pub channels : length dma.ccr ≡ 8
  pub counts : length dma.cndtr ≡ 8

enabled : (x : ℕ) → bit_and (bit_or x 1) 1 ≡ 1
enabled x = omega (arith, bit_and-mask 1 (bit_or x 1), bit_or-step x 1)

disabled : (x : ℕ) → bit_and (bit_and x 0xfffffffe) 1 ≡ 0
disabled x = omega (arith, bit_and-mask 1 (bit_and x 0xfffffffe), bit_and-step x 0xfffffffe)

abbrev started : Dma → ℕ → Dma
started dma channel = record dma {
  ccr = set dma.ccr channel (bit_or (get_or dma.ccr channel 0) 1);
  cndtr = set dma.cndtr channel 0;
  isr = bit_or dma.isr (1 * 2 ^ (channel * 4)) % 4294967296;
}

start-on :
    {dma : Dma} (channel : ℕ)
    → IsOn dma
    → channel < 8
    → start (some dma) channel ≡ some (started dma channel)
unfolding start
start-on {dma} channel v h = rw (v.on, leb-false 8 channel h) refl

busy-on :
    (dma : Dma) (channel : ℕ)
    → dma.initialized ≡ true
    → channel < 8
    → is_busy (some dma) channel ≡ not (bit_and (get_or dma.ccr channel 0) 1 == 0)
unfolding is_busy
busy-on dma channel v h = rw (v, leb-false 8 channel h) refl

stop-on :
    (dma : Dma) (channel : ℕ)
    → dma.initialized ≡ true
    → channel < 8
    → stop (some dma) channel
      ≡ some
          (record dma { ccr = set dma.ccr channel (bit_and (get_or dma.ccr channel 0) 0xfffffffe) })
unfolding stop
stop-on dma channel v h = rw (v, leb-false 8 channel h) refl

-- On a controller that is on, `virt_dma_start` of a channel completes the transfer (nothing is left
-- to go), yet the channel is busy from then on, until `virt_dma_stop` ends that; and every other
-- channel is as busy as before after both.
pub start_stop :
    {dma : Dma} (channel other : ℕ)
    → IsOn dma
    → channel < 8
    → other < 8
    → other ≢ channel
    → (dma' : Dma) × (start (some dma) channel ≡ some dma')
      × (get_or dma'.cndtr channel 1 ≡ 0)
      × (is_busy (some dma') channel ≡ true)
      × (is_busy (stop (some dma') channel) channel ≡ false)
      × (is_busy (some dma') other ≡ is_busy (some dma) other)
      × (is_busy (stop (some dma') channel) other ≡ is_busy (some dma) other)
start_stop {dma} channel other v h ho ne =
    let x : ℕ = get_or dma.ccr channel 0 in
    let s : Dma = started dma channel in
    let y : ℕ = get_or s.ccr channel 0 in
    let t : Dma = record s { ccr = set s.ccr channel (bit_and y 0xfffffffe) } in
    let apart : channel ≢ other = λ e. ne (sym e) in
    let kept : get_or s.ccr other 0 ≡ get_or dma.ccr other 0 =
      get_or-set_ne dma.ccr channel other (bit_or x 1) 0 apart in
    let kept' : get_or t.ccr other 0 ≡ get_or s.ccr other 0 =
      get_or-set_ne s.ccr channel other (bit_and y 0xfffffffe) 0 apart in
    let room : channel < length s.ccr = omega (arith, v, length-set dma.ccr channel (bit_or x 1)) in
    (
      s,
      start-on channel v h,
      get_or-set_self dma.cndtr channel 0 1 (omega (arith, v)),
      busy-on s channel v.on h
          ∙ rw (get_or-set_self dma.ccr channel (bit_or x 1) 0 (omega (arith, v)), enabled x) refl,
      rw (stop-on s channel v.on h) (
          busy-on t channel v.on h
          ∙ rw (get_or-set_self s.ccr channel (bit_and y 0xfffffffe) 0 room, disabled y) refl),
      busy-on s other v.on ho ∙ rw (kept) (sym (busy-on dma other v.on ho)),
      rw (stop-on s channel v.on h)
          (busy-on t other v.on ho ∙ rw (kept', kept) (sym (busy-on dma other v.on ho))),
    )
