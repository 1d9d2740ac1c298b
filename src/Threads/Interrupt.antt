-- ===== src/Threads/Interrupt.antt =====
-- The interrupt mask and the handler of threads/interrupt.c. The mask says whether the timer's signal
-- is unblocked; `sigprocmask` and `setitimer` are taken to succeed.
use ece344_operating_systems.Base.{Bool, true, false, if◌then◌else◌}
use ece344_operating_systems.Threads.Wait.{push_frame}
use ece344_operating_systems.Threads.Yield.{thread_yield}
use ece344_operating_systems.Threads.State.{
  State, Outcome, fault, thread_any, interrupt_call, interrupts,
}

-- Whether interrupts were on, and the new mask.
unfoldable pub interrupts_set : Bool → State → Bool × State
interrupts_set enabled s = (s.enabled, interrupts s enabled)

unfoldable pub interrupts_on : State → Bool × State
unfolding interrupts_set
interrupts_on s = interrupts_set true s

unfoldable pub interrupts_off : State → Bool × State
unfolding interrupts_set
interrupts_off s = interrupts_set false s

unfoldable pub interrupts_enabled : State → Bool
interrupts_enabled s = s.enabled

-- `vprintf` between, which changes nothing here.
unfoldable pub unintr_printf : State → State
unfolding interrupts_off interrupts_set
unintr_printf s = let (enabled, s') = interrupts_off s in (interrupts_set enabled s').1

-- Its messages and the timer's next alarm are left out.
unfoldable pub interrupt_handler : State → Outcome
unfolding interrupts_enabled thread_yield
interrupt_handler s = if interrupts_enabled s then fault else thread_yield thread_any s

-- The system blocks the signal and calls the handler on the stack of the current thread.
unfoldable pub interrupt : State → Outcome
unfolding interrupt_handler
interrupt s = interrupt_handler (push_frame interrupt_call (interrupts s false))
