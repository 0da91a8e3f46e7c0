-- ===== src/Sys/Handlers.antt =====
-- The table of src/kernel/sys/sys.c: each number of a system call has one handler.
use visual_os.Base.{ℕ, ◌≡◌, refl, Bool, true, arith, ◌==◌}
use visual_os.Base.Table.{apart, IsOnly, first_match-IsOnly}
use visual_os.Sys.{SysHandler, SysFunction, sys_handlers, syshandler_get}

abbrev same_num : SysHandler → SysHandler → Bool
same_num x y = x.num == y.num

numbers_apart : apart same_num sys_handlers ≡ true
unfolding apart sys_handlers
numbers_apart = refl

-- For every number syshandler_get returns the handler of the one entry of the table with the number,
-- or the stub if the table has none.
pub syshandler_get-IsOnly :
    (num : ℕ)
    → IsOnly
        (λ (h : SysHandler). h.num == num)
        (λ (h : SysHandler). h.handler)
        SysFunction.stub
        sys_handlers
        (syshandler_get num)
unfolding syshandler_get
syshandler_get-IsOnly num =
    first_match-IsOnly (λ (h : SysHandler). h.num == num) (λ (h : SysHandler). h.handler)
      SysFunction.stub same_num (λ x y a b. ground arith) sys_handlers numbers_apart
