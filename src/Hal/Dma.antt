-- ===== src/Hal/Dma.antt =====
-- The DMA controller of src/hal/virt_periph.c and virt_periph.h. A `virt_dma_t*` is an `Option`
-- (`none` is NULL). Every access to the arrays of eight is under the test of the channel.
pub mod Channels
mod Examples
use embed_rtos.Base.{
  ℕ, ◌*◌, Bool, true, false, not, ◌||◌, Option, none, some, List, leb, ◌==◌, if◌then◌else◌, u32,
  bit_or, bit_and, set, get_or, replicate, ◌<<<◌,
}

-- isr: the interrupt flags; of each channel ccr: the configuration, cndtr: the bytes to go, cpar and
-- cmar: the addresses.
pub record Dma : Type 0 where
  pub isr : ℕ
  pub ccr : List ℕ
  pub cndtr : List ℕ
  pub cpar : List ℕ
  pub cmar : List ℕ
  pub initialized : Bool

pub init : Option Dma → Option Dma
init none = none
init (some dma) = some (record {
  isr = 0;
  ccr = replicate 8 0;
  cndtr = replicate 8 0;
  cpar = replicate 8 0;
  cmar = replicate 8 0;
  initialized = true;
})

pub deinit : Option Dma → Option Dma
deinit none = none
deinit (some dma) = if dma.initialized then some (record dma { initialized = false }) else some dma

pub config_channel : Option Dma → ℕ → ℕ → ℕ → ℕ → ℕ → Option Dma
config_channel none channel src_addr dst_addr size config = none
config_channel (some dma) channel src_addr dst_addr size config =
    if not dma.initialized || leb 8 channel
    then some dma
    else some (record dma {
      ccr = set dma.ccr channel config;
      cndtr = set dma.cndtr channel size;
      cpar = set dma.cpar channel src_addr;
      cmar = set dma.cmar channel dst_addr;
    })

-- The transfer is over at once: nothing is left to go, and the channel's flag is set.
pub start : Option Dma → ℕ → Option Dma
start none channel = none
start (some dma) channel =
    if not dma.initialized || leb 8 channel
    then some dma
    else some (record dma {
      ccr = set dma.ccr channel (bit_or (get_or dma.ccr channel 0) 1);
      cndtr = set dma.cndtr channel 0;
      isr = u32 (bit_or dma.isr (1 <<< (channel * 4)));
    })

pub stop : Option Dma → ℕ → Option Dma
stop none channel = none
stop (some dma) channel =
    if not dma.initialized || leb 8 channel
    then some dma
    else some
        (record dma { ccr = set dma.ccr channel (bit_and (get_or dma.ccr channel 0) 0xfffffffe) })

pub is_busy : Option Dma → ℕ → Bool
is_busy none channel = false
is_busy (some dma) channel =
    if not dma.initialized || leb 8 channel
    then false
    else not (bit_and (get_or dma.ccr channel 0) 1 == 0)
