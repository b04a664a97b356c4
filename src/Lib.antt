-- ===== src/Lib.antt =====
-- The native side of the Samba documents provider for Android.
--
-- The app's Java code reaches SMB shares through one shared library, samba_client
-- (app/CMakeLists.txt). Four C++ files make it up, and this development models each of
-- them, function by function:
--
--   app/src/main/cpp/jni_helper/JniHelper.cc            JniHelper (below)
--   app/src/main/cpp/jni_helper/JavaClassCache.cc       JavaClassCache
--   app/src/main/cpp/samba_client/SambaClient.cc        SambaClient (below)
--   app/src/main/cpp/credential_cache/CredentialCache.cc  CredentialCache
--
-- The functions that it exports to Java are those of app/src/main/cpp/jni_helper/JniHelper.h
-- (JniHelper.Exports). Of libsmbclient the repository has a binary and the header
-- app/src/main/cpp/samba_includes/libsmbclient.h, whose documentation of the functions that the
-- bridge calls is Libsmbclient.
--
-- A native method of JniHelper gets the bytes of its strings from the JVM, calls a method of
-- SambaClient, turns a negative result into a Java exception, and gives the bytes back.
-- SambaClient wraps libsmbclient: each method makes one call, and reports a failure as minus
-- errno. libsmbclient asks for credentials by the callback GetAuthData, which looks them up in
-- the CredentialCache that Java fills by putCredential. Classes and constructors that the bridge
-- needs are looked up once and kept, in JavaClassCache and in static locals.
--
-- Java classes around the native methods are modelled too, all below
-- app/src/main/java/com/evideo/sambaprovider. nativefacade/SambaFile.java (Nativefacade.SambaFile)
-- keeps the offset of an open file; Nativefacade.NativeFile is the interface between it and its native
-- methods, and Nativefacade.Bridge fills it with the code of JniHelper.cc. On SambaFile stand the loops
-- of provider/SambaProxyFileCallback.java (Provider.Transfers) and of provider/ReadFileTask.java and
-- WriteFileTask.java (Provider.Tasks). nativefacade/BaseClient.java, MessageValues.java and
-- SambaFileClient.java (Looper) hand the calls of many threads to the one thread that may call
-- libsmbclient. browsing (Browsing) finds servers by NetBIOS and keeps their names by address.
--
-- The world. libsmbclient, the C library, the JVM and the allocator are the record Env of
-- World.Calls: functions from the trace, all the events so far with the newest first, to an
-- answer. A theorem that holds for every Env holds whatever a server, the JVM or another thread
-- did before the call. A State (World.State) has the trace, errno, the class cache, the static
-- locals, the heaps of CredentialCache and SambaClient objects, and the pointer
-- credentialCache_. A command (Cmd) maps an Env and a State to a Run: ok with a value and a
-- state, exited for exit(status), or fault for an access of memory through NULL or through a dead
-- object, and for one out of bounds. Of the methods of SambaClient only Init and the destructor read
-- or write a member, so that they alone access memory through the client's pointer; the others call
-- functions of libsmbclient that take no context, and get and drop that pointer as the code does. World.Jni has the functions of JNIEnv, World.Libc the calls, errno, new and
-- delete.
--
-- Data. Strings are lists of bytes (Text). An int is a ℤ; a negation and each conversion that can
-- wrap is written out with its modulus (Base.Int). Widths are those of armeabi-v7a, the one ABI
-- for which the repository has libraries: size_t, ssize_t, off_t and pointers have 32 bits, jlong
-- has 64. The unordered_maps are association lists (Base.Maps).
--
-- The files.
--   Base             names that the library shares: tests, lists, integers, strings, maps
--   Logger           the macros of app/src/main/cpp/logger/logger.h
--   World            calls, state, commands, JNI, C library
--   Libsmbclient.Types     the types of directory entries
--   Libsmbclient.Errors    error numbers, and the shapes of answers
--   Libsmbclient.Files     smbc_open, creat, read, write, lseek, close, stat, fstat: their answers
--   Libsmbclient.Directories  smbc_unlink, rename, opendir, closedir, mkdir, rmdir: their answers
--   Libsmbclient.Contexts  smbc_new_context, init, free, set, the setters: their answers, and a
--                    monitor of the order in which they may be called
--   Libsmbclient.Turns     a monitor of one context at a time
--   Libsmbclient.Handles   a monitor of the use of file and directory handles
--   Libsmbclient.Contract  these together: FollowsHeader
--   JavaClassCache   JavaClassCache::get, and static locals
--   CredentialCache  get, put, remove; CredentialCache.Laws their laws
--   SambaClient.Files    OpenDir, ReadDir, CloseDir, Fstat, Stat, CreateFile, Mkdir, Rename, Unlink,
--                    Rmdir, OpenFile, SeekFile, ReadFile, WriteFile, CloseFile, getTypeName
--   SambaClient.Outcomes the values of these from the replies
--   SambaClient.Context  Init, ~SambaClient
--   SambaClient.Auth     GetAuthData; SambaClient.Buffers and SambaClient.AuthLaws its laws
--   JniHelper.Objects    the static helpers that throw and that make Java objects
--   JniHelper.Paths      openDir, stat, createFile, mkdir, rename, unlink, rmdir
--   JniHelper.OpenFile   openFile; JniHelper.Modes its modes as a table
--   JniHelper.Handles    readDir and close of SambaDir; fstat, seek, read, write, close of SambaFile
--   JniHelper.Credentials nativeInit, putCredential and removeCredential of
--                    NativeCredentialCache; setEnv of SambaConfiguration
--   JniHelper.Lifecycle  nativeInit and nativeDestroy of NativeSambaFacade
--   JniHelper.Callbacks  the templates of jni_helper/JniCallback.h and base/Callback.h
--   JniHelper.Ready      what the theorems rely on, and the predicate Does
--   JniHelper.Policies   the exceptions of each path method as a table
--   JniHelper.ClassLaws, Throws, Made, Tail   lemmas on lookups, exceptions, objects, and the end
--                    of a method
--   JniHelper.PathLaws, OpenLaws, HandleLaws, EnvironmentLaws, CredentialLaws, LifecycleLaws,
--   Balance          what the methods do
--   JniHelper.Session    sequences of the methods on paths and descriptors; Settles and SessionLaws
--                    what every sequence keeps
--   JniHelper.Exports, ExportLaws  the functions of JniHelper.h with their JNI types, and their calls
--   JniHelper.HeaderLaws, HeaderBounds  exceptions, flags and byte counts over the documented answers
--   JniHelper.ContextLaws, LifetimeLaws  the rules on contexts, in nativeInit and in the whole life
--                    of a client
--   JniHelper.HandleLife, FileLife  the rules on handles, from openFile to close
--   JniHelper.CacheSession  sequences of putCredential and removeCredential on one cache
--   JniHelper.Entries    create_directory_entry in a JVM that may be out of memory
--   Nativefacade.Java    how Java methods end, and the objects of an open file
--   Nativefacade.NativeFile, SambaFile, FileLaws, Endings  SambaFile.java over an interface
--   Nativefacade.Bridge, BridgeLaws  the native methods of JniHelper.cc as that interface
--   Nativefacade.Facade, FacadeLaws  reset of NativeSambaFacade.java, over nativeInit and nativeDestroy
--   Provider.Transfers   onRead and onWrite
--   Provider.TransferEnds, WriteEnds, Stalls  when these end; NativeTransfers the same over the bridge
--   Provider.Slices, RegularFile, ReadContents  what onRead copies
--   Provider.NativeContents  the native methods over a libsmbclient that serves a file
--   Provider.Tasks   ReadFileTask, WriteFileTask; ReadTask and WriteTask what they copy
--   Looper.Values    MessageValues.java
--   Looper.FileClient, ClientLaws  SambaFileClient.java: the calls as messages, and against SmbFile
--   Looper.Machine   the steps of the clients' threads and of the looper's, over the pool and the queue
--   Looper.Atomic    the specification: a server that does one call at a time
--   Looper.Ownership, Preservation, Progress  who holds which values, in every step
--   Looper.Refinement, FileRuns  runs of the machine as runs of the server
--   Looper.Liveness  how a call comes to its end
--   Browsing.Packets     byte buffers that are read and written
--   Browsing.Queries, QueryLaws  createPacket of broadcast/BroadcastUtils.java, and its layout
--   Browsing.Responses   extractServers and skipBytes of the same file
--   Browsing.Names, Answers  responses as servers send them, byte by byte: the specification
--   Browsing.Exactness, Consumption  readers that take an encoding whole; bytes that a reader takes
--   Browsing.ParseLaws, ParseBounds, AnswerLaws  the parser over answers, and over any bytes
--   Browsing.Services, ServiceLaws  addServiceData of ServiceHelper.java
--   Browsing.Listening, ListenLaws, Repeats  listenForServers of
--                    broadcast/BroadcastBrowsingProvider.java
--   Tests            the theorems at concrete inputs
--
-- Hypotheses. IsHealthy: the JVM finds the five classes and their constructors and has memory for
-- objects; it may still refuse the bytes of any string. SetsErrno: libsmbclient leaves a positive
-- error number in errno when it reports a failure, as its documentation says. IsReady: what the
-- class cache and the static locals hold are the right references. `Does s run a e` says that the
-- run from s returns a, adds the events e to the trace (lookups of classes and the making of
-- strings and objects aside), keeps IsReady, and leaves the heaps and credentialCache_ alone.
-- FollowsHeader: each answer of libsmbclient is one that libsmbclient.h documents, for the error
-- numbers as for the results. A function that returns no number leaves 0 in
-- the field of the result. Fits: results and error numbers are `int`s and addresses have 32 bits.
-- Accepts: what the Java caller of an exported function has to see to. The rules of
-- Libsmbclient.Contexts and of Libsmbclient.Handles turn a history into `some` usage of contexts and
-- `some` open handles, or into `none` after a breach.
-- FailsToInit says that smbc_init_context fails and that the context's first free works, and nothing
-- of a second one. Works, Owns and IsCTuple are stated where they are used.
--
-- IsCounting, IsWriting, IsRegularFile and IsSeekable are what the Java loops ask of the native
-- methods, from states that are valid: counts within what was asked for; progress of each write, which
-- WritesSome asks of libsmbclient; the bytes of a file; a position that a seek below 2^31 sets, as the
-- native method narrows all others. Provider.NativeContents has the last two for the code of
-- JniHelper.cc, over a libsmbclient that ServesFile. `filled` of Nativefacade.Bridge is what a read leaves in the buffer's memory.
--
-- A Descriptor is Android's ParcelFileDescriptor with its stream, a parameter: what a write takes of
-- its bytes, and what the closings throw. The tasks begin where both resources of their `try` are open.
--
-- IsSink is a file whose writes take a part of what they are given. IsFaithful is what the machine of
-- the looper asks of a client's code; SambaFileClient has it for every SmbFile. IsPositiveAnswer,
-- HasHead and FitsDatagram say which responses come from the network. In the looper's machine each
-- `wait` ends by a `notify`, as the code relies on; the one theorem on the other case says so.
--
-- The C++ code runs without fuel: its only loops are those of the C library on strings, which are
-- structural recursions here. The loops of onRead and onWrite run on fuel; `size + 1` turns are
-- enough, since each turn but the last moves at least one byte. ReadFileTask takes a turn more than
-- the file has bytes. All other loops recur on their list or count.
--
-- Not modelled: the log lines that the code prints; app/src/main/cpp/native-lib.cpp, which is not
-- built; libsmbclient itself, whose calls are fields of Env and of whose header only the
-- documentation of the functions above is used; the other vendored headers and binaries of Samba
-- (app/src/main/cpp/samba_includes, app/src/main/jniLibs); and the rest of the Java side
-- (app/src/main/java): ByteBufferPool, which lends a cleared buffer; the other methods of NativeSambaFacade and the clients of
-- the looper for directories, paths and credentials; the threads that send the broadcasts and search
-- addresses; the copies of HTTP servers of other projects; the cache of documents, the shares and the
-- user interface. An interrupted `wait` is left out, as the code says that it never happens.
pub mod Base
pub mod Logger
pub mod World
pub mod Libsmbclient
pub mod JavaClassCache
pub mod CredentialCache
pub mod SambaClient
pub mod JniHelper
pub mod Nativefacade
pub mod Provider
pub mod Looper
pub mod Browsing
pub mod Tests
