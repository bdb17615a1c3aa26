-- ===== src/Tests/Retries.antt =====
-- A frame that the radio has refused, at a concrete input.
use hydro_lo_ra_shield.Base.{◌≡◌, refl, true, false, [], some, arith}
use hydro_lo_ra_shield.Driver.{read_register}
use hydro_lo_ra_shield.Driver.Transfer.{lora_send_packet, lora_send_packet_base}
use hydro_lo_ra_shield.Lora.{Device, receiving, set_receive_mode}
use hydro_lo_ra_shield.Lora.Radio
use hydro_lo_ra_shield.Lora.Radio.{try_send}
use hydro_lo_ra_shield.Handler.Send.Steps.{Job, transmitting, trying, waiting, idle}
use hydro_lo_ra_shield.Main.System.{System, Reach, Step, raised, sent_on, raise, sending}
use hydro_lo_ra_shield.Main.System.Attempts.{Between, at_once, between}
use hydro_lo_ra_shield.Main.System.Retries.{retried}
use hydro_lo_ra_shield.Tests.Airs.{air_spi, air_laws}
use hydro_lo_ra_shield.Entries.{slot}
use hydro_lo_ra_shield.Exchange.Sending.{sent_entry}
use hydro_lo_ra_shield.Interface.{Request}
use hydro_lo_ra_shield.Main.Request.{IsRequested, Reach-IsRequested}
use hydro_lo_ra_shield.Tests.Toys.{toy_aes, toy_aes_laws}
use hydro_lo_ra_shield.Tests.Clients.{toy_os}
use hydro_lo_ra_shield.Tests.Systems.{zeros, new_system}
use hydro_lo_ra_shield.Tests.Threads.{
  hi, hi-IsMessage, cleared, cleared-IsStale, hi_entry, hi_frame,
}

-- A chip that is transmitting.
abbrev busy_device : Device air_spi
busy_device = record {
  mode = receiving;
  lora = record {
    spi_timeout = 1000;
    frequency = 0;
    pa_mode = 1;
    tx_base_addr = 128;
    rx_base_addr = 0;
  };
  chip = record { regs = λ a. 0x83; fifo = λ k. 0; aired = [] };
}

-- `send` is at the last frame of its message.
abbrev last_frame : Job
last_frame = transmitting hi_entry []

abbrev busy_system : System toy_aes air_spi toy_os
busy_system = record {
  handler = new_system.handler;
  lora = busy_device;
  server = new_system.server;
  sender = trying hi_frame last_frame;
  in_interrupt = false;
}

abbrev refused_device : Device air_spi
refused_device = (try_send air_spi hi_frame busy_device).1

hi_refused : (try_send air_spi hi_frame busy_device).0 ≡ false
unfolding Radio.try_send Radio.send lora_send_packet lora_send_packet_base read_register
hi_refused = refl

-- The system after the refusal, when an interrupt has come, and after the sleep.
abbrev refused_system : System toy_aes air_spi toy_os
refused_system = record busy_system {
  lora = refused_device;
  sender = waiting hi_frame false last_frame;
}

abbrev interrupted : System toy_aes air_spi toy_os
interrupted = record refused_system { in_interrupt = true }

abbrev awake : System toy_aes air_spi toy_os
awake = record interrupted { sender = trying hi_frame last_frame }

hi_raised : raise refused_device ≡ (refused_device, true)
unfolding raise Radio.try_send Radio.send lora_send_packet lora_send_packet_base read_register
    set_receive_mode Radio.end_transmission
hi_raised = refl

hi_slept :
    sending zeros cleared 0 (interrupted.handler, refused_device, interrupted.sender)
    ≡ some (awake.handler, refused_device, awake.sender)
unfolding sending Radio.radio Radio.wait
hi_slept = refl

meanwhile : Between zeros refused_system awake
meanwhile =
    between interrupted awake
      (between refused_system interrupted at_once
        (raised refused_system refused_device true refl hi_raised) tt)
      (sent_on cleared 0 interrupted interrupted.handler refused_device awake.sender cleared-IsStale
        hi_slept)
      tt

retried_example :
    (u : System toy_aes air_spi toy_os) × Step zeros awake u
    × (u.sender ≡ waiting hi_frame true last_frame)
retried_example =
    retried zeros air_laws busy_system awake hi_frame hi_frame last_frame last_frame cleared 0
      hi_refused (omega arith) cleared-IsStale meanwhile refl

-- A message comes while the chip is transmitting.
abbrev calm_system : System toy_aes air_spi toy_os
calm_system = record busy_system { sender = idle }

no_hi_yet : slot (sent_entry (λ i. 0) 7) calm_system.handler.messages ≡ []
unfolding slot
no_hi_yet = refl

Reach-IsRequested_example :
    (r : Request) × (t : System toy_aes air_spi toy_os) × Reach zeros calm_system t
    × (t.sender ≡ idle)
    × IsRequested toy_aes_laws air_laws zeros hi
        (λ i. 0)
        7
        cleared
        (λ i. 0)
        calm_system.handler
        calm_system.lora
        r
        t.handler
        t.lora
Reach-IsRequested_example =
    Reach-IsRequested toy_aes_laws air_laws zeros hi (λ i. 0) 7 cleared (λ i. 0) calm_system
      hi-IsMessage cleared-IsStale refl no_hi_yet
