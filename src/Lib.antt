-- ===== src/Lib.antt =====
-- GPU over IP: the client side in C++, client/, and the server and the tool of a GPU node in Go, cmd/ and
-- pkg/. An application's calls of the CUDA driver are hooked (client/hook) and forwarded to a launcher
-- (client/launcher), which chooses a node for each allocation and moves data by ZMQ or RDMA;
-- client/data_transfer sends and receives the data of the hooked copies. On a node, cmd/capnpserver
-- receives the packets, launches kernels and plans copies; cmd/aitherion-cli configures and starts it.
--
-- How the parts interact. The hook's library installs its functions over those of the driver; a hooked
-- function asks the launcher through its client, calls the driver's own function, or calls the data
-- transfer. The launcher's root service handles a request by the dispatcher, which reads the measures of
-- the cooling service, and by a request to the chosen node through a client of that node's launcher. A
-- thread watches the configuration and has the dispatcher read it again. The generic services pass their
-- requests to managers. The transports stand below the managers. The server's receive loop puts the
-- packets of the ZMQ transport into a ring, from which four workers take them; a worker reads the header
-- of a message and asks pkg/numa for the access to memory, here or at another node. The tool writes the
-- topology of the machine to files, keeps the configuration of the nodes, and starts a container with
-- the server for each file that names a card.
--
-- The files, with the code that each models:
--   Base and below        shared names; integers, maps, bytes and decimals over the native numbers, the
--                         effects with their handles, and `Outcome`, what a call under a mutex comes to
--   Float, Float.Fixed    the arithmetic of `float` and `double` as an interface: its operations and the
--                         laws that the proofs use; a concrete one in thousandths, for the tests
--   Cuda                  the values of `CUresult` that the code names
--   Cooling               client/launcher/services/cooling_service.h and .cpp: AccessRecord, Start, Stop,
--                         RecordAccess, isHotData, getMobility, getStability, getNumaId, getTemperature
--                         and Run (`pass`)
--   Dispatcher            client/launcher/dispatcher.h and .cpp: CalculateNodeScore, AddNode, GetNodes,
--                         makeAllocationDecision, PickNode, GetNodeById
--   Dispatcher.Config     LoadConfig of the same file
--   Root                  client/launcher/main.cpp, RootService: requestAllocation, requestFree and
--                         planMemcpyHtoD, cut where they wait for a peer; Root.Forwarding are the
--                         handlers that hand a request on
--   Watcher               client/launcher/main.cpp, ConfigWatcher
--   LauncherClient        client/launcher/launcher_client.h and .cpp
--   GlobalMemory          client/launcher/memory/global_memory.h and .cpp; GlobalMemory.Race is GetMapping
--                         by several threads
--   NumaAddress           client/launcher/memory/numa_address.h
--   Services              client/launcher/services: memory_service, transport_service, advise_service
--   Transport.Zmq         client/launcher/transport/zmq_transport.h and .cpp
--   Transport.Rdma        client/launcher/transport/rdma_transport.h and .cpp
--   Transport.Plank       client/launcher/transport/plank/plank_transport.h and .cpp
--   Adapter               client/launcher/protocol_adapter.cpp; Adapter.Rdma is its rdmaMemcpy
--   DataTransfer          client/data_transfer/src/zmq_manager.cpp
--   Hook                  client/hook/hook_cuda.h and .cpp
--   Hook.Client           client/hook/launcher_client.h and .cpp
--   Hook.Entry            client/hook/easyhook_entry.cpp
--   Numa                  pkg/numa/routing.go, and GetCurrentNode of pkg/numa/binding.go
--   Numa.Discovery        pkg/numa/discovery.go
--   Numa.OpenCapi         pkg/numa/opencapi.go
--   Server.Ring           cmd/capnpserver/main.go, the ring of StartZMQReceiver
--   Server.Receiver       its receive loop and workers, with the signal between them
--   Server.Messages       processMessage; Server.Messages.Frames has packets of Transport.Zmq processed
--   Server.Params         prepareParamBuffer and cudaKernelLaunch
--   Server.Functions      getCudaFunction, cut at its locks
--   Server.Nodes          StartStatusMonitor, selectOptimalNode, negotiateTransferParams, PlanMemcpyHtoD
--                         and PrefetchData
--   Go                    the functions of strings and strconv that the Go sources call
--   Cli.Menu              cmd/aitherion-cli/numa/configure.go
--   Cli.Topology          cmd/aitherion-cli/utils/topogen.go, and getNUMATotalMemoryKB of docker.go
--   Cli.Containers        cmd/aitherion-cli/utils/docker.go, StartContainers
--   Cli.Network           the network and the health check of docker.go, network.go and clean.go of the
--                         tool
-- The modules below a component prove what their names say; each Tests module runs its component.
--
-- How the code is translated. The state of an object is a record and a method a function from the state
-- to the new one. Of a library that is not in the repository (libzmq, verbs, CUDA, Cap'n Proto, yaml-cpp,
-- EasyHook) the answers are arguments, and the calls are a list of events, from which the handles that
-- are still open are computed (`handles`, `IsReleased`). A mutex is a flag; a call that waits for a mutex
-- which its own thread holds is `blocked`. A panic is a value, and where it ends the program an event
-- after which no step is left. A handler that waits for a peer is two steps, and a relation of steps
-- gives every interleaving. A `size_t`, `uint32_t` or `uint64_t` wraps where the code computes with it.
--
-- Bounds and fuel. The retry loop of the ZMQ transport runs on four units, one more than its three
-- rounds. The loop that counts kernel parameters runs on MAX_PARAMS + 1, which covers its last test. The
-- wait for an RDMA completion has no bound in the code: its fuel is an argument, and enough of it is any
-- number above that of the first poll which answers other than 0.
--
-- The Go sources do not compile as they stand (unused variables, a result too many, names that nothing
-- declares); the model is of what they say, with a name that has no body as a parameter.
--
-- Not modelled: the handlers of GPUService and main of cmd/capnpserver/main.go, which pass requests to
-- packages that are not in the repository and wire the services; the other commands of
-- cmd/aitherion-cli, which run programs; the schemas and the code generated from them, which most of the
-- repository's lines are; the build files, the precompiled headers, log output, the health check
-- (declared in dispatcher.h and defined nowhere), client/data_transfer/src/data_transfer.cpp (two
-- functions that call themselves), and data races other than the one of GlobalMemory.Race.
pub mod Base
pub mod Float
pub mod Cooling
pub mod Cuda
pub mod Dispatcher
pub mod DataTransfer
pub mod Transport
pub mod GlobalMemory
pub mod Numa
pub mod Server
pub mod Cli
pub mod NumaAddress
pub mod Services
pub mod Root
pub mod Watcher
pub mod LauncherClient
pub mod Adapter
pub mod Go
pub mod Hook
