-- ===== src/Layout/Tests.antt =====
-- The theorems on the shared memory at concrete inputs.
use ssmp.Base.{arith}
use ssmp.Layout.{x86_regions}
use ssmp.Layout.Areas.{IsLaidOut, x86_regions-IsLaidOut}

x86_regions-IsLaidOut_example : IsLaidOut (x86_regions 8192 48) 0 48 8192
x86_regions-IsLaidOut_example = x86_regions-IsLaidOut 8192 48 (omega arith)
