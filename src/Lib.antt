-- ===== src/Lib.antt =====
-- OpenRace is a static detector of data races for C and C++ programs in LLVM. Its main function,
-- detectRaces in src/RaceDetect.cpp, builds a trace of the events of each thread (src/Trace) with
-- the points-to sets of a pointer analysis (src/PointerAnalysis), and gives the trace to analyses:
-- HappensBeforeGraph decides which events may run in parallel, LockSet which locks are held, and
-- SharedMemory which objects several threads access. detectRaces then goes through the pairs of a
-- write and another access to a shared object, and collects those that are parallel, hold no
-- common lock, and that no other analysis excludes.
--
-- The files and the code they are about:
-- - Prelude: the names and lemmas that the rest shares. Prelude/OrderedMap is std::map with
--   integer keys, as an association list in ascending order.
-- - Trace/Event: the events of src/Trace/Event.h and the ThreadTrace of src/Trace/ThreadTrace.h,
--   as the analyses read them. An event has its thread's id and its own id, and a kind with what
--   the analyses use of it; objects, locks and LLVM values are numbers. A program trace is the
--   list of its threads.
-- - HappensBefore: src/Analysis/HappensBeforeGraph.h and HappensBeforeGraph.cpp. Syncs has the
--   sorted vectors of sync events, Graph the members and addSyncEdge, findNextSync,
--   findNextSyncAfter and findPrevSync, Build the first half of the constructor with
--   getForkedThread, getCorrespondingFork and getJoinedThread, Search the worklist loop of its
--   second half, and Query the cache that it fills, canReach and areParallel. Graph/Invariant,
--   Search/Correct, Search/Halts, Query/Cache, Before, Build/Keeps and Build/Order are proofs.
--   Before gives the order that the queries decide, as a data type of walks along threads and sync
--   edges.
-- - LockSet: src/Analysis/LockSet.h and LockSet.cpp; a multiset is a list in ascending order.
-- - SharedMemory: src/Analysis/SharedMemory.h and SharedMemory.cpp; Accesses is a description of
--   the accesses of a thread by recursion on the events, to which Returns and Shared compare the
--   maps.
-- - ThreadLocal: src/Analysis/ThreadLocalAnalysis.cpp on the two sets of objects.
-- - RaceDetect: the checks and loops of src/RaceDetect.cpp with src/Analysis/SimpleAlias.cpp. The
--   lock set's cache, which checkRace changes, is passed on from check to check.
-- - Ir: IR::Type of src/IR/IR.h and the classof tests of its classes. Ir/Operands has the values
--   that the classes of src/IR/IRImpls.h read from their instructions.
-- - Summary: generateFunctionSummary of src/IR/Builder.cpp, from the instructions of a function to
--   its IR, with the functions of src/LanguageModel/OpenMP.h, pthread.h and LLVMInstrinsics.h in
--   Names. The `else if` chain is a table of tests and actions. Emitted, Accesses and Teams are
--   proofs.
-- - Trace/Build: buildTrace of src/Trace/Build/TraceBuilder.cpp with the constructor of a forked
--   thread in src/Trace/ThreadTrace.cpp. States has ProgramBuildState and ThreadBuildState as one
--   record with the CallStack, Runtime the hooks of OpenMPRuntime.h and OpenMPRuntime.cpp. An
--   assertion that fails and a null pointer that is read end the building. Threads that a thread
--   has forked are a forest, which the fork adds to. Grows, Threads, Whole, Budget and Halts are
--   proofs. buildTrace takes fuel for its nested calls and threads; `budget` is how many of them
--   can still begin, since a function is on the call stack of a thread once and threads below each
--   other start in distinct functions.
-- - Trace/Program: the constructor of the main thread, and src/Trace/ProgramTrace.cpp with the
--   worklist that lists the threads; the fuel of the worklist is the number of threads. Order,
--   Lookup and Ends are proofs.
-- - OpenmpAnalysis: src/Analysis/OpenMPAnalysis.h and OpenMPAnalysis.cpp. A Team is a thread with
--   what its spawn site leads to, up to the main thread. Guards has guardedBySameTID, ForLoops the
--   loops with their cache; Counts, Regions and Teams are proofs about regions and teams. Reduce
--   has ReduceAnalysis and inSameReduce, with its worklist on fuel and the proofs Correct and
--   Halts, and Sections insideCompatibleSections, with the proof Beyond. A failed assertion and a
--   read of an optional without a value or beyond the end of a vector are `none` or `fails`.
-- - PointsTo: the points-to sets in src/PointerAnalysis/Solver/PointsTo: PointedByPts.h with the
--   proofs Inverse, and BitVectorPTS.h in BitVector. llvm::SparseBitVector is the record
--   BitVectors with Laws.
-- - Reporter: SourceLoc, RaceAccess, Race and Report of src/Reporter/Reporter.h and Reporter.cpp,
--   with std::set as an ascending list. Order and Report are proofs.
-- - RingBuffer: src/PointerAnalysis/Context/PtrRingBuffer.h with its iterator, and the loops of
--   KCallSite.h over it. The loop takes the size of the buffer as its fuel. Items is about these
--   loops.
-- - Contexts: the CtxTrait of KCallSite.h, KOrigin.h and HybridCtx.h in
--   src/PointerAnalysis/Context. A set is a list, and a context of it is named by its place. Once
--   is a proof.
-- - ConstraintGraph: the graph of src/PointerAnalysis/Graph, with GraphBase.h, and CGNodeBase.h,
--   CGObjNode.h, CGPtrNode.h and ConstraintGraph.h in ConstraintGraph. A pointer to a node is its
--   id, and a failed assertion is `fails`. getSuperNode takes one more than the number of nodes
--   with a super node as its fuel, since each step goes to another one. Collapse has collapseSCCTo
--   and clearConstraints. Edges, Inverse and Supers are proofs, and so are the files below
--   Collapse.
-- - Solver: the processing of constraints in src/PointerAnalysis/Solver/SolverBase.h, with the
--   language model, a template parameter, as the record LangModel; Copies and Objects are proofs.
--   PartialUpdate is a round of PartialUpdateSolver.h for the components that the SCC iterator
--   gives, with onNewConstraint; the loop over the work list takes fuel. Recorded and Rounds are
--   proofs.
-- - MemoryModel: the layouts of src/PointerAnalysis/Models/MemoryModel/FieldSensitive/Layout,
--   whose tables of arrays are lists in the order of their offsets, and AggregateMemBlock of
--   MemBlock.h in Block. The size and the end of an array wrap at 2 ^ 64. Indexing has MemBlock
--   with what LLVM answers about an instruction as an Index, and isArrayExistAtOffset. Canonical,
--   Block/Fields and the files below Indexing are proofs.
-- - Tests: small programs and inputs, and the theorems at them.
--
-- State that the code mutates is a record that each operation takes and returns. What is computed
-- with LLVM, which are the instructions that a handle is stored to, loaded from or merged from,
-- and whether two events are in one function, is a parameter: the record Values for the
-- constructor of HappensBeforeGraph, and the record Analyses for detectRaces, which also has the
-- answers of OpenMPAnalysis, ThreadLocalAnalysis and the alias analysis. OpenmpAnalysis models the
-- answers of OpenMPAnalysis apart from it. The answers about an instruction are fields of the
-- instruction in Summary, and Trace/Build takes those of LLVM and the pointer analysis as its
-- record Answers.
--
-- Results of loops: the first half of the constructor of HappensBeforeGraph goes through lists,
-- and its result is an error where an assertion fails, where an optional without a value is read,
-- or where the loop over a PHI node is out of its fuel, one round, since a round does not change
-- the handle. The worklist loop takes fuel. A node is marked when it leaves the worklist and so
-- enters it several times; `rounds` bounds the number of rounds by the number of nodes and the
-- number of successors, and `enough` is that bound for the graph. The fuel is a bound of the model
-- only.
--
-- What is not modelled: the call stacks and the printing of a report, the last-private blocks of
-- OpenMPAnalysis, the SCC iterator, canonicaliser and the building of memory layouts in the
-- pointer analysis, and the solvers that nothing uses, the array index analysis, and the passes
-- and command line, which call LLVM. Printing, debug dumps and coverage do not change results and
-- are left out.
pub mod Prelude
pub mod Trace
pub mod HappensBefore
pub mod LockSet
pub mod SharedMemory
pub mod ThreadLocal
pub mod RaceDetect
pub mod Ir
pub mod Summary
pub mod Reporter
pub mod ConstraintGraph
pub mod Contexts
pub mod MemoryModel
pub mod OpenmpAnalysis
pub mod PointsTo
pub mod RingBuffer
pub mod Solver
pub mod Tests
