-- ===== src/Lib.antt =====
-- NovaHypervisor is a thin hypervisor for Windows on Intel processors: a driver that puts the
-- running system into a guest, one virtual machine per processor, and protects pages of the
-- kernel by changing the entries of the extended page tables (EPT). The paths below are from the
-- root of the repository.
--
-- The parts. NovaHypervisor/Vmx.cpp sets up the VMCS of each processor and launches it; the
-- tables of the EPT are built by NovaHypervisor/Ept.cpp. Every processor leaves the guest into
-- VmexitHandler (NovaHypervisor/VmexitHandler.cpp), which calls the handlers of
-- NovaHypervisor/RegistersHandler.cpp, NovaHypervisor/VmcallHandler.cpp and
-- NovaHypervisor/Ept.cpp; these read and write the VMCS, and leave events for the guest by
-- NovaHypervisor/EventInjection.cpp. In VMX root mode no memory can be allocated, so
-- NovaHypervisor/PoolManager.cpp hands preallocated buffers out and asks two threads for more by
-- tables of requests (NovaHypervisor/RequestList.hpp), all under spin locks
-- (NovaHypervisor/Spinlock.cpp). NovaHypervisor/DeviceControl.cpp takes the requests of the
-- client to protect a page, and has every processor call the hypervisor for it.
--
-- The files.
-- * Base, with Base/Tests, Base/Lists and Base/Bits: shared names, Boolean tests, lists measured
--   by native numbers, and masks of words as division and remainder.
-- * Spinlock, for Spinlock.cpp: Move is one atomic step of a thread, with DoLock, the pauses of
--   Lock, and Unlock; Step lets any thread move. Spinlock/Backoff has the pauses,
--   Spinlock/Exclusion the invariant.
-- * RequestList, for RequestList.hpp: create, insert, pop and get_list_size; RequestList/Slots
--   and RequestList/Laws compare the table with a bag of requests.
-- * PoolManager, for PoolManager.cpp: the operations on the lists under one lock each.
--   PoolManager/Poll is the loop that waits, with 25 rounds of fuel: the wait is the longest
--   after 15 rounds and 10 of those are the limit. PoolManager/Allocate has Allocate and Free.
--   PoolManager/Invariant and Slots have the invariant. In PoolManager/Threads a machine is the
--   pool with where its two threads are: each call of ProcessAllocation and ProcessFree that
--   takes a lock is a step of its own, and what Pop returned stays in the thread's hands until
--   the next step; PoolManager/Holding has the histories of such steps.
-- * Layout, for the words of HypervisorDefinitions.h that are declared as bit fields, each as the
--   list of the widths of its members, with Layout/Laws.
-- * Vmcs, for VMCS_FIELDS of HypervisorDefinitions.h: Vmcs/Fields has the encodings, VmcsStore
--   what VMREAD and VMWRITE promise of a store of fields (a parameter of all that follows), and
--   Vmcs/Store a store that keeps it. Guest has GUEST_REGS and the list of the instructions with
--   an effect outside of the VMCS.
-- * EventInjection, for EventInjection.cpp, with EventInjection/Laws and EventInjection/Delivery.
-- * VmxHelper, for the parts of VmxHelper.cpp that handlers and the setup of the VMCS call, with
--   VmxHelper/Laws and VmxHelper/Segments; VmxHelper/Capabilities has what is asked of the
--   processor before VMX is entered, CheckFeatures of Ept.cpp among it, with VmxHelper/Support.
-- * RegistersHandler, for RegistersHandler.cpp: RegistersHandler/Laws is about MSRs,
--   RegistersHandler/Control about control registers and CPUID.
-- * Ept, for Ept.cpp. Ept/Mtrr has BuildMtrrMap, GetMemoryType and IsValidForLargePage, with
--   Ept/Mtrr/Build and Ept/Mtrr/Large. Ept/Entry has the members of the entries. Ept/Table has
--   the tables in a memory of words: GetPml1Entry, GetPml2Entry, GetPml1OrPml2Entry,
--   SplitLargePage, SetupPML2Entry, AllocateAndCreateIdentityPageTable and
--   LogicalProcessorInitialize; Ept/Table/Walk is the walk of the processor, Fill the loops that
--   store, Split, Identity, Initialize and Processor what the operations leave for the walk, and
--   Raise the dereference of NULL in the set-up, which is an outcome of its own. Ept/Hooks has
--   the EPT violations, the single step and the removal of hooks, with Ept/Hooks/Violation and
--   Ept/Hooks/Removal. Ept/PageHook has RootModePageHook, with its steps and cases in Steps,
--   Frame and Laws, and Outcome, Records and RoundTrip.
-- * VmcallHandler, for VmcallHandler.cpp, with the codes of hypercalls in VmcallHandler/Codes and
--   VmcallHandler/Laws.
-- * Vmx, for Vmx.cpp and VmState.h: the state of one processor and VmxVmxoff, with Vmx/Off.
--   Vmx/Setup has SetupVmcs as runs of VMWRITE, each a list of fields with their values;
--   Vmx/Setup/Reads and Stages say what a field holds after them, and Vmx/Setup/Laws compares the
--   result with what the processor checks and with the state of the processor, Vmx/Setup/Vpid
--   with the answer of InitializeVpidSupport.
-- * VmexitHandler, for VmexitHandler.cpp: EmulateXsetbv, with VmexitHandler/Laws; its loop on the
--   state components has 62 rounds, one for each component from 2 to 63. VmexitHandler/Dispatch
--   has the whole handler, from the exit reason to the advance of RIP, with the operations of the
--   other files; Frame says which fields the parts leave alone, and Exit, Fault, Leave and
--   Hooking what the guest finds.
-- * ComLogger, for ComLogger.cpp: how FormatMessage puts a message together, in a memory of
--   bytes. Its loop has one round of fuel for each character of the format. ComLogger/Formats,
--   Bounds and Digits are about the formats, the buffer and the numbers.
-- * DeviceControl, for DeviceControl.cpp and the calls of VmxHelper.cpp that it broadcasts: the
--   checks of a request, with DeviceControl/Requests.
-- * The modules named Tests run the definitions and apply the theorems at concrete inputs.
--
-- Numbers are natural numbers, with the wrap-around of a machine word written out. Memory is a
-- function from the address of a word of 8 bytes. What RDMSR, CPUID and the allocator of the
-- kernel return, and the translations between physical and virtual addresses, are arguments. A
-- function under a lock is one atomic operation. Logging is left out; DbgBreakPoint is an entry
-- of the list of effects, after which the code goes on. A record of a hook that a single step
-- remembers is kept by value, so its reuse by the pool in between is outside of the model.
--
-- Not modelled: the allocation of the regions and the launch in Vmx.cpp, the operations of
-- Ept.cpp that broadcast a call to all processors, the serial port of ComLogger.cpp; the
-- assembly, the calls of the operating system, and the client.
pub mod Base
pub mod Spinlock
pub mod RequestList
pub mod PoolManager
pub mod Layout
pub mod Vmcs
pub mod Vmx
pub mod Guest
pub mod EventInjection
pub mod VmxHelper
pub mod RegistersHandler
pub mod Ept
pub mod VmcallHandler
pub mod VmexitHandler
pub mod ComLogger
pub mod DeviceControl
