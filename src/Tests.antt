-- ===== src/Tests.antt =====
-- Runs of the model on concrete data, and the theorems at inputs that meet their hypotheses.
mod AddressTests
mod BalanceTests
mod LogTests
mod SyncTests
mod SwitchTests
mod ServerTests
mod BufferTests
mod ChannelTests
mod ClientTests
mod ConfigTests
mod ConnectionTests
mod CoroutineTests
mod DispatchTests
mod MsgReqTests
mod ReactorTests
mod RpcTests
mod TimeWheelTests
mod HttpTests
mod LoopTests
mod TimerTests
