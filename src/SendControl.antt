-- ===== src/SendControl.antt =====
-- send_control.cpp: when a channel sends its next datagram, and how it changes between the modes of
-- its congestion control; with `Channel::TimeoutDataOut` of sendrecv.cpp, which it calls.
pub mod State
pub mod Timeout
pub mod Modes
pub mod Next
pub mod Ends
pub mod Losses
